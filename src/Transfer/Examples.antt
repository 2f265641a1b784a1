-- ===== src/Transfer/Examples.antt =====
-- The theorems on the loops, with a peer that takes and gives one byte at a time after some calls
-- that would block.
use xcoro.Base.{ℕ, zero, suc, ◌<◌, refl, false, List, [], ◌∷◌, ◌++◌, arith, length}
use xcoro.Transfer.{
  eagain, ReadAnswer, bytes_read, end_of_file, read_error, WriteAnswer, bytes_written, write_error,
  nothing_written, eintr, is_ready, Environment, async_read_exact, async_write_all,
}
use xcoro.Transfer.Kernel.{Stream, ReadFits, WriteFits, Serves}
use xcoro.Transfer.Read.{ReadEnds, async_read_exact-ends}
use xcoro.Transfer.Write.{WriteEnds, async_write_all-ends}

record Peer : Type 0 where
  hiccups : ℕ
  inbox : List ℕ
  outbox : List ℕ

abbrev give : ℕ → List ℕ → List ℕ → ReadAnswer × Peer
give zero [] outbox = (end_of_file, record { hiccups = 0; inbox = []; outbox = outbox })
give zero (x ∷ inbox) outbox =
    (bytes_read 1 (x ∷ []), record { hiccups = 0; inbox = inbox; outbox = outbox })
give (suc hiccups) inbox outbox =
    (read_error eagain, record { hiccups = hiccups; inbox = inbox; outbox = outbox })

abbrev accept : ℕ → List ℕ → List ℕ → List ℕ → WriteAnswer × Peer
accept zero inbox outbox [] =
    (nothing_written eintr, record { hiccups = 0; inbox = inbox; outbox = outbox })
accept zero inbox outbox (x ∷ bytes) =
    (bytes_written 1, record { hiccups = 0; inbox = inbox; outbox = outbox ++ x ∷ [] })
accept (suc hiccups) inbox outbox bytes =
    (write_error eagain, record { hiccups = hiccups; inbox = inbox; outbox = outbox })

abbrev peer_environment : Environment Peer
peer_environment = record {
  cancellation_requested = λ p. false;
  read = λ p n. give p.hiccups p.inbox p.outbox;
  write = λ p bytes. accept p.hiccups p.inbox p.outbox bytes;
  wait = λ p. (is_ready, p);
}

abbrev peer_stream : Stream Peer
peer_stream = record {
  incoming = λ p. p.inbox;
  outgoing = λ p. p.outbox;
  patience = λ p. p.hiccups;
}

gives :
    (hiccups : ℕ) (inbox outbox : List ℕ) (n : ℕ)
    → 0 < n
    → ReadFits peer_stream
        (record { hiccups = hiccups; inbox = inbox; outbox = outbox })
        n
        (give hiccups inbox outbox)
gives zero [] outbox n pos = refl
gives zero (x ∷ inbox) outbox n pos = (refl, omega arith, omega arith, refl, omega arith)
gives (suc hiccups) inbox outbox n pos = (refl, omega arith)

accepts :
    (hiccups : ℕ) (inbox outbox bytes : List ℕ)
    → 0 < length bytes
    → WriteFits peer_stream
        (record { hiccups = hiccups; inbox = inbox; outbox = outbox })
        bytes
        (accept hiccups inbox outbox bytes)
accepts zero inbox outbox [] pos = absurd (omega arith)
accepts zero inbox outbox (x ∷ bytes) pos = (omega arith, omega arith, refl, omega arith)
accepts (suc hiccups) inbox outbox bytes pos = (refl, omega arith)

peer-Serves : Serves peer_stream peer_environment
peer-Serves = record {
  reads = λ p n pos. gives p.hiccups p.inbox p.outbox n pos;
  writes = λ p bytes pos. accepts p.hiccups p.inbox p.outbox bytes pos;
  waits_in = λ p. refl;
  waits_out = λ p. refl;
  waits = λ p. omega arith;
}

abbrev slow_peer : Peer
slow_peer = record { hiccups = 2; inbox = 5 ∷ 6 ∷ 7 ∷ []; outbox = [] }

async_read_exact-ends_example :
    ReadEnds (5 ∷ 6 ∷ 7 ∷ []) 2 (async_read_exact peer_environment 5 slow_peer 2).0
async_read_exact-ends_example =
    async_read_exact-ends peer_environment peer_stream peer-Serves 5 slow_peer 2 (omega arith)

async_write_all-ends_example :
    WriteEnds peer_environment peer_stream peer-Serves []
      (8 ∷ 9 ∷ [])
      (async_write_all peer_environment 5 slow_peer (8 ∷ 9 ∷ []))
async_write_all-ends_example =
    async_write_all-ends peer_environment peer_stream peer-Serves 5 slow_peer (8 ∷ 9 ∷ [])
      (omega arith)
