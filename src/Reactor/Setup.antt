-- ===== src/Reactor/Setup.antt =====
-- The descriptors that `epoll_reactor` opens and closes: its constructor and its destructor.
use xcoro.Base.{ℕ, ◌+◌, ◌≡◌, Option, none, some, List, [], ◌∷◌, ◌++◌, arith, count}

-- What the calls of the constructor answer: a descriptor, or `errno`.
pub data Opened : Type 0 where
  opened refused : ℕ → Opened

pub record Answers : Type 0 where
  pub epoll_create : Opened
  pub eventfd : Opened
  -- `epoll_ctl`, with `errno` if it fails.
  pub add_wake_fd : Option ℕ

-- -1 is `none`.
pub record Fds : Type 0 where
  pub epoll_fd : Option ℕ
  pub wake_fd : Option ℕ

-- The constructor throws `system_error`, or leaves the two descriptors.
pub data Made : Type 0 where
  throws : ℕ → Made
  makes : Fds → Made

-- The constructor, with the descriptors that it opened and those that it closed.
pub record Constructed : Type 0 where
  pub made : Made
  pub opens : List ℕ
  pub closes : List ℕ

unfoldable pub construct : Answers → Constructed
construct a = elim a.epoll_create [
  | refused e ↦ record { made = throws e; opens = []; closes = [] }
  | opened epoll_fd ↦ elim a.eventfd [
    | refused e ↦ record { made = throws e; opens = epoll_fd ∷ []; closes = epoll_fd ∷ [] }
    | opened wake_fd ↦ elim a.add_wake_fd [
      | some e ↦ record {
        made = throws e;
        opens = epoll_fd ∷ wake_fd ∷ [];
        closes = wake_fd ∷ epoll_fd ∷ [];
      }
      | none ↦ record {
        made = makes (record { epoll_fd = some epoll_fd; wake_fd = some wake_fd });
        opens = epoll_fd ∷ wake_fd ∷ [];
        closes = [];
      }
    ]
  ]
]

abbrev close_fd : Option ℕ → List ℕ
close_fd none = []
close_fd (some fd) = fd ∷ []

-- What the destructor closes.
unfoldable pub destruct : Fds → List ℕ
destruct fds = close_fd fds.wake_fd ++ close_fd fds.epoll_fd

-- No destructor runs if the constructor throws.
abbrev pub closed_later : Made → List ℕ
closed_later (throws e) = []
closed_later (makes fds) = destruct fds

-- Whatever the calls answer, each descriptor that the constructor opened is closed as often, by the
-- constructor where it throws or else by the destructor.
pub construct-closes :
    (a : Answers) (fd : ℕ)
    → let r = construct a in count fd r.closes + count fd (closed_later r.made) ≡ count fd r.opens
unfolding construct destruct
construct-closes a fd = ground arith
