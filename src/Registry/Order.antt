-- ===== src/Registry/Order.antt =====
-- heapdump/registry.go: Register and Open together.
use heaplens.Base.{List, [], ◌∷◌, ℕ, ◌≡◌, refl, arith, Bool, Bool-cases, inl, inr, false, ◌||◌}
use heaplens.Base.{if◌then◌else◌}
use heaplens.Registry.{Parser, Registry, Source, register, find_parser, open_dump}

-- Some parser of the registry accepts the bytes.
abbrev accepted : Registry → List ℕ → Bool
accepted [] first = false
accepted (parser ∷ parsers) first = parser.can_parse first || accepted parsers first

find_parser-register :
    (p : Parser) (registry : Registry) (first : List ℕ)
    → find_parser (register p registry) first
      ≡ (if accepted registry first then find_parser registry first else find_parser (p ∷ []) first)
unfolding find_parser register
find_parser-register p [] first = refl
find_parser-register p (parser ∷ parsers) first =
    ground (arith, find_parser-register p parsers first)

-- A parser that is registered changes what Open does with an input only where no parser registered
-- before accepts its first bytes; there Open does what it does with the new parser alone.
pub open_dump-register :
    (p : Parser) (registry : Registry) (source : Source)
    → open_dump (register p registry) source ≡ (
        if accepted registry source.first
        then open_dump registry source
        else open_dump (p ∷ []) source)
unfolding open_dump
open_dump-register p registry source =
    rw (find_parser-register p registry source.first)
      (elim (Bool-cases (accepted registry source.first)) [
        | inl old ↦ rw old refl
        | inr new ↦ rw new refl
      ])
