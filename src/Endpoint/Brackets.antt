-- ===== src/Endpoint/Brackets.antt =====
-- An address in brackets.
use xcoro.Base.{[], ◌∷◌, ◌++◌}
use xcoro.Endpoint.{String, bracket, closing}

abbrev pub bracketed : String → String
bracketed s = bracket ∷ (s ++ closing ∷ [])
