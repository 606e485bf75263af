-- ===== src/Samples.antt =====
-- Concrete values that the tests of several modules use.
use it_outsourcing_knowledge.Base.{ℕ, zero, suc, ◌≡◌, refl, String, Option, some, map_option, ap}
use it_outsourcing_knowledge.Base.Uuid.{UuidCodec}

abbrev tally : ℕ → String
tally zero = String.[]
tally (suc n) = String.◌∷◌ "I" (tally n)

abbrev count : String → Option ℕ
count String.[] = some 0
count (String.◌∷◌ c s) = map_option suc (count s)

pub count-tally : (n : ℕ) → count (tally n) ≡ some n
count-tally zero = refl
count-tally (suc n) = ap (map_option suc) (count-tally n)

-- An identifier written as so many strokes.
abbrev pub strokes : UuidCodec
strokes = record { to_str = tally; parse = count; parse-to_str = count-tally }
