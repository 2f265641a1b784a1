-- ===== src/Sockets/Listen.antt =====
-- `acceptor::listen` of include/xcoro/net/acceptor.hpp, with the operations of `socket` that it calls, of
-- include/xcoro/net/socket.hpp. `close` of the system calls is what `socket::close` does: it takes the
-- descriptor from the reactor and closes it. An exception destroys the socket on its way.
use xcoro.Base.{
  ℕ, ◌≡◌, refl, ◌∙◌, Bool, true, false, Option, none, some, List, [], ◌∷◌, ◌++◌, if◌then◌else◌,
}
use xcoro.Endpoint.{Endpoint}
use xcoro.Sockets.{
  Got, got, error, Environment, Outcome, returned, system_error, cancelled, pending, create_socket,
}

-- `SOCK_STREAM`, `IPPROTO_TCP`, `SO_REUSEADDR` and `SO_REUSEPORT`
abbrev sock_stream : ℕ
sock_stream = 1

abbrev ipproto_tcp : ℕ
ipproto_tcp = 6

abbrev so_reuseaddr : ℕ
so_reuseaddr = 2

abbrev so_reuseport : ℕ
so_reuseport = 15

pub record ListenOptions : Type 0 where
  pub backlog : ℕ
  pub reuse_address : Bool
  pub reuse_port : Bool

pub record Calls (S : Type 0) : Type 0 where
  pub set_option : S → ℕ → ℕ → ℕ → Got (Unit {0}) × S
  pub bind : S → ℕ → Endpoint → Got (Unit {0}) × S
  pub listen : S → ℕ → ℕ → Got (Unit {0}) × S
  pub close : S → ℕ → S

module _ {S : Type 0} (env : Environment S) (calls : Calls S) where
  unfoldable pub open_tcp : S → ℕ → Outcome ℕ × S
  unfolding create_socket
  open_tcp s family = create_socket env s family sock_stream ipproto_tcp

  -- A call that throws where it answers -1, in a function that owns the socket, and what follows.
  unfoldable pub checked : ℕ → Got (Unit {0}) × S → (S → Outcome ℕ × S) → Outcome ℕ × S
  checked fd (got done, s) continue = continue s
  checked fd (error e, s) continue = (system_error e, calls.close s fd)

  -- `set_reuse_address(true)` or `set_reuse_port(true)`, if it is wanted.
  unfoldable pub set_reuse : Bool → ℕ → S → ℕ → (S → Outcome ℕ × S) → Outcome ℕ × S
  unfolding checked
  set_reuse wanted name s fd continue =
      if wanted then checked fd (calls.set_option s fd name 1) continue else continue s

  -- `listen` behind `open_tcp`.
  unfoldable pub configure : S → ℕ → Endpoint → ListenOptions → Outcome ℕ × S
  unfolding set_reuse checked
  configure s fd ep options = set_reuse options.reuse_address so_reuseaddr s fd (λ s₁.
      set_reuse options.reuse_port so_reuseport s₁ fd (λ s₂.
        checked fd (calls.bind s₂ fd ep)
          (λ s₃. checked fd (calls.listen s₃ fd options.backlog) (λ s₄. (returned fd, s₄)))))

  unfoldable pub listen : S → ℕ → Endpoint → ListenOptions → Outcome ℕ × S
  unfolding open_tcp configure
  listen s family ep options =
      let (socket, s') = open_tcp s family in
      elim socket [
        | returned fd ↦ configure s' fd ep options
        | system_error e ↦ (system_error e, s')
        | cancelled ↦ (cancelled, s')
        | pending ↦ (pending, s')
      ]

-- What can be seen of a descriptor: whether it is open, to what it is bound, and whether it listens.
pub record SocketView (S : Type 0) : Type 0 where
  pub opened : S → ℕ → Bool
  pub bound : S → ℕ → Option Endpoint
  pub listens : S → ℕ → Bool

-- The documented behaviour: a call that succeeds has done its work, and no call but `close` closes.
pub record Answers {S : Type 0} (view : SocketView S) (calls : Calls S) : Type 0 where
  pub binds :
      (s : S) (fd : ℕ) (ep : Endpoint)
      → (calls.bind s fd ep).0 ≡ got tt
      → view.bound (calls.bind s fd ep).1 fd ≡ some ep
  pub listening :
      (s : S) (fd backlog : ℕ)
      → (calls.listen s fd backlog).0 ≡ got tt
      → (view.listens (calls.listen s fd backlog).1 fd ≡ true)
        × (view.bound (calls.listen s fd backlog).1 fd ≡ view.bound s fd)
  pub closes : (s : S) (fd : ℕ) → view.opened (calls.close s fd) fd ≡ false
  pub keeps_option :
      (s : S) (fd name v : ℕ) → view.opened (calls.set_option s fd name v).1 fd ≡ view.opened s fd
  pub keeps_bind :
      (s : S) (fd : ℕ) (ep : Endpoint) → view.opened (calls.bind s fd ep).1 fd ≡ view.opened s fd
  pub keeps_listen :
      (s : S) (fd backlog : ℕ) → view.opened (calls.listen s fd backlog).1 fd ≡ view.opened s fd

module _ {S : Type 0} (env : Environment S) (calls : Calls S) (view : SocketView S)
    (answers : Answers view calls) where
  -- What `listen` is to do with the descriptor, one call after the other.
  abbrev pub wanted_option : Bool → ℕ → ℕ → List (S → Got (Unit {0}) × S)
  wanted_option wanted name fd = if wanted then (λ s. calls.set_option s fd name 1) ∷ [] else []

  abbrev pub wanted_calls : ℕ → Endpoint → ListenOptions → List (S → Got (Unit {0}) × S)
  wanted_calls fd ep options =
      wanted_option options.reuse_address so_reuseaddr fd
      ++ (wanted_option options.reuse_port so_reuseport fd
          ++ (λ s. calls.bind s fd ep) ∷ (λ s. calls.listen s fd options.backlog) ∷ [])

  -- A call, and what comes behind it unless it fails.
  abbrev pub after_call : Got (Unit {0}) × S → Option ℕ × S → Option ℕ × S
  after_call (got done, s) rest = rest
  after_call (error e, s) rest = (some e, s)

  -- Calls made in order up to the first that fails: its error, if there is one, and the state then.
  abbrev pub run_calls : S → List (S → Got (Unit {0}) × S) → Option ℕ × S
  run_calls s [] = (none, s)
  run_calls s (c ∷ cs) = after_call (c s) (run_calls (c s).1 cs)

  -- The calls all succeeded, and the descriptor is open, bound to `ep` and listens; or one of them
  -- failed with the error that is thrown, and the descriptor was closed in the state that it left.
  abbrev pub Listens : ℕ → Endpoint → Option ℕ × S → Outcome ℕ × S → Type 0
  Listens fd ep made (returned fd', s) =
      (made ≡ (none, s))
      × (fd' ≡ fd)
      × (view.opened s fd ≡ true)
      × (view.bound s fd ≡ some ep)
      × (view.listens s fd ≡ true)
  Listens fd ep made (system_error e, s) =
      (made.0 ≡ some e) × (s ≡ calls.close made.1 fd) × (view.opened s fd ≡ false)
  Listens fd ep made (cancelled, s) = ⊥
  Listens fd ep made (pending, s) = ⊥

  checked-Listens :
      (fd : ℕ) (ep : Endpoint) (answer : Got (Unit {0}) × S) (rest : Option ℕ × S)
      (continue : S → Outcome ℕ × S)
      → (answer.0 ≡ got tt → Listens fd ep rest (continue answer.1))
      → Listens fd ep (after_call answer rest) (checked env calls fd answer continue)
  unfolding checked
  checked-Listens fd ep (got done, s) rest continue h = h refl
  checked-Listens fd ep (error e, s) rest continue h = (refl, refl, answers.closes s fd)

  set_reuse-Listens :
      (wanted : Bool) (name : ℕ) (s : S) (fd : ℕ) (ep : Endpoint)
      (rest : List (S → Got (Unit {0}) × S)) (continue : S → Outcome ℕ × S)
      → view.opened s fd ≡ true
      → ((s' : S) → view.opened s' fd ≡ true → Listens fd ep (run_calls s' rest) (continue s'))
      → Listens fd ep
          (run_calls s (wanted_option wanted name fd ++ rest))
          (set_reuse env calls wanted name s fd continue)
  unfolding set_reuse
  set_reuse-Listens false name s fd ep rest continue is_open h = h s is_open
  set_reuse-Listens true name s fd ep rest continue is_open h =
      let answer = calls.set_option s fd name 1 in
      checked-Listens fd ep answer (run_calls answer.1 rest) continue
        (λ done. h answer.1 (answers.keeps_option s fd name 1 ∙ is_open))

  -- With calls that behave as documented, making a socket listen, once it is open, makes the wanted
  -- calls in order: the options that are wanted, `bind` and `listen`. If all of them succeed, it
  -- returns in the state that they leave, and the descriptor is open, bound to the endpoint and
  -- listens. Otherwise it stops at the first that fails, throws its error, and closes the descriptor.
  pub configure-Listens :
      (s : S) (fd : ℕ) (ep : Endpoint) (options : ListenOptions)
      → view.opened s fd ≡ true
      → Listens fd ep
          (run_calls s (wanted_calls fd ep options))
          (configure env calls s fd ep options)
  unfolding configure
  configure-Listens s fd ep options is_open =
      set_reuse-Listens options.reuse_address so_reuseaddr s fd ep _ _ is_open (λ s₁ open₁.
        set_reuse-Listens options.reuse_port so_reuseport s₁ fd ep _ _ open₁ (λ s₂ open₂.
          checked-Listens fd ep (calls.bind s₂ fd ep) _ _ (λ done₃.
            let s₃ = (calls.bind s₂ fd ep).1 in
            checked-Listens fd ep (calls.listen s₃ fd options.backlog) _ _ (λ done₄. (
              refl,
              refl,
              answers.keeps_listen s₃ fd options.backlog ∙ answers.keeps_bind s₂ fd ep ∙ open₂,
              (answers.listening s₃ fd options.backlog done₄).1 ∙ answers.binds s₂ fd ep done₃,
              (answers.listening s₃ fd options.backlog done₄).0,
            )))))
