-- ===== src/Sockets/Create.antt =====
-- Descriptors that are created have their flags.
use xcoro.Base.{ℕ, ◌≡◌, ◌≢◌, refl, ◌∙◌, Bool, true, false, ◌||◌, arith, ◌==◌, if◌then◌else◌}
use xcoro.Sockets.{
  einval, eprotonosupport, Opened, opened, refused, Word, status, descriptor, Flags, Got, got,
  error, Environment, Outcome, returned, system_error, cancelled, pending, set_bit, set_both,
  create_socket,
}
use xcoro.Sockets.Kernel.{View, OpenFits, SetFits, Serves}

module _ {S : Type 0} (env : Environment S) (view : View S) (serves : Serves view env) where
  -- The descriptor that a call returns has both flags.
  abbrev pub Ready : Outcome ℕ × S → Type 0
  Ready (returned fd, s) = (view.bit s status fd ≡ true) × (view.bit s descriptor fd ≡ true)
  Ready (system_error e, s) = Unit {0}
  Ready (cancelled, s) = Unit {0}
  Ready (pending, s) = ⊥

  abbrev BitSet : S → Word → ℕ → Outcome (Unit {0}) × S → Type 0
  BitSet s word fd (returned done, s') =
      (view.bit s' word fd ≡ true)
      × ((other : Word) → other ≢ word → view.bit s' other fd ≡ view.bit s other fd)
  BitSet s word fd (system_error e, s') = Unit {0}
  BitSet s word fd (cancelled, s') = ⊥
  BitSet s word fd (pending, s') = ⊥

  set_flags-BitSet :
      (s s₁ : S) (word : Word) (fd : ℕ) (f : Flags) (r : Got (Unit {0}) × S)
      → ((other : Word) → view.bit s₁ other fd ≡ view.bit s other fd)
      → SetFits view s₁ word fd (record f { bit = true }) r
      → let out : Outcome (Unit {0}) × S = elim (r.0) [
        | error e ↦ (system_error e, r.1)
        | got done ↦ (returned tt, r.1)
      ] in
        BitSet s word fd out
  set_flags-BitSet s s₁ word fd f (got done, s₂) same (set, kept) =
      (set, λ other ne. kept other ne ∙ same other)
  set_flags-BitSet s s₁ word fd f (error e, s₂) same fits = tt

  set_bit-BitSet : (word : Word) (s : S) (fd : ℕ) → BitSet s word fd (set_bit env word s fd true)
  unfolding set_bit
  set_bit-BitSet word s fd = behind (env.get_flags s word fd) (λ other. serves.gets s word other fd)
    where
      behind :
          (r : Got Flags × S)
          → ((other : Word) → view.bit r.1 other fd ≡ view.bit s other fd)
          → let out : Outcome (Unit {0}) × S = elim (r.0) [
            | error e ↦ (system_error e, r.1)
            | got f ↦
                let (answer, s₂) = env.set_flags r.1 word fd (record f { bit = true }) in
                elim answer [ error e ↦ (system_error e, s₂) | got done ↦ (returned tt, s₂) ]
          ] in
            BitSet s word fd out
      behind (error e, s₁) same = tt
      behind (got f, s₁) same =
          set_flags-BitSet s s₁ word fd f (env.set_flags s₁ word fd (record f { bit = true })) same
            (serves.sets s₁ word fd (record f { bit = true }))

  both-Ready :
      (s : S) (fd : ℕ) (first second : Outcome (Unit {0}) × S)
      → BitSet s status fd first
      → BitSet (first.1) descriptor fd second
      → let out : Outcome ℕ × S = elim (first.0) [
        | returned done ↦ elim (second.0) [
          | returned done' ↦ (returned fd, second.1)
          | system_error e ↦ (system_error e, second.1)
          | cancelled ↦ (cancelled, second.1)
          | pending ↦ (pending, second.1)
        ]
        | system_error e ↦ (system_error e, first.1)
        | cancelled ↦ (cancelled, first.1)
        | pending ↦ (pending, first.1)
      ] in
        Ready out
  both-Ready s fd (returned done, s₁) (returned done', s₂) (set, kept) (set', kept') =
      (kept' status (λ e. ground (arith, e)) ∙ set, set')
  both-Ready s fd (returned done, s₁) (system_error e, s₂) v w = tt
  both-Ready s fd (returned done, s₁) (cancelled, s₂) v w = absurd w
  both-Ready s fd (returned done, s₁) (pending, s₂) v w = absurd w
  both-Ready s fd (system_error e, s₁) second v w = tt
  both-Ready s fd (cancelled, s₁) second v w = absurd v
  both-Ready s fd (pending, s₁) second v w = absurd v

  pub set_both-Ready : (s : S) (fd : ℕ) → Ready (set_both env s fd)
  unfolding set_both
  set_both-Ready s fd =
      let first = set_bit env status s fd true in
      both-Ready s fd first (set_bit env descriptor (first.1) fd true) (set_bit-BitSet status s fd)
        (set_bit-BitSet descriptor (first.1) fd)

  second-Ready :
      (retry : Bool) (e : ℕ) (s₁ : S) (second : Opened × S)
      → let again : Outcome ℕ × S = elim (second.0) [
        | opened fd ↦ set_both env (second.1) fd
        | refused e' ↦ (system_error e', second.1)
      ] in
        Ready (if retry then again else (system_error e, s₁))
  second-Ready false e s₁ second = tt
  second-Ready true e s₁ (opened fd, s₂) = set_both-Ready s₂ fd
  second-Ready true e s₁ (refused e', s₂) = tt

  -- `create_socket` never returns a descriptor that lacks one of the two flags, also where the kernel
  -- does not know them and they are set behind the call.
  pub create_socket-Ready :
      (s : S) (family type protocol : ℕ) → Ready (create_socket env s family type protocol)
  unfolding create_socket
  create_socket-Ready s family type protocol =
      behind (env.socket s true family type protocol) (serves.sockets s true family type protocol)
    where
      behind :
          (first : Opened × S)
          → OpenFits view s true first
          → let second = env.socket (first.1) false family type protocol in
            let out : Outcome ℕ × S = elim (first.0) [
              | opened fd ↦ (returned fd, first.1)
              | refused e ↦
                  if e == einval || e == eprotonosupport
                  then elim (second.0) [
                    | opened fd ↦ set_both env (second.1) fd
                    | refused e' ↦ (system_error e', second.1)
                  ]
                  else (system_error e, first.1)
            ] in
            Ready out
      behind (opened fd, s₁) fits = fits refl
      behind (refused e, s₁) fits =
          second-Ready (e == einval || e == eprotonosupport) e s₁
            (env.socket s₁ false family type protocol)
