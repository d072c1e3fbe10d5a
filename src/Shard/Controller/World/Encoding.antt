-- ===== src/Shard/Controller/World/Encoding.antt =====
-- An encoding of maps of the key/value service for the tests: it writes every map, and reads back what
-- it wrote.
use Prim.Native.Char.{Char, char, code, nul}
use Prim.Native.Nat.{Ordering, compare, lt, eq, gt}
use mit.Base.{ℕ, zero, suc, ◌≡◌, refl, ◌∙◌, ap, sym, String, Option, none, some, [], ◌∷◌, length}
use mit.Base.Assoc.{Map}
use mit.Raft.State.{Bytes}
use mit.Kv.{ValueEntry}
use mit.Shard.Group.{Json}
use mit.Shard.Migration.{RoundTrips}

-- Whether a number is a character, by its place beside the bounds of the characters.
abbrev Inside : Ordering → Ordering → Type 0
Inside lt lt = Unit
Inside lt eq = ⊥
Inside lt gt = ⊥
Inside eq o = ⊥
Inside gt o = ⊥

abbrev Scalar : Ordering → Ordering → Ordering → Type 0
Scalar lt p q = Unit
Scalar eq p q = Inside p q
Scalar gt p q = Inside p q

abbrev inside : (p q : Ordering) → (Inside p q → Char) → Char
inside lt lt make = make tt
inside lt eq make = nul
inside lt gt make = nul
inside eq q make = nul
inside gt q make = nul

abbrev scalar : (o p q : Ordering) → (Scalar o p q → Char) → Char
scalar lt p q make = make tt
scalar eq p q make = inside p q make
scalar gt p q make = inside p q make

inside_lem : (p q : Ordering) (make : Inside p q → Char) (h : Inside p q) → inside p q make ≡ make h
inside_lem lt lt make h = refl
inside_lem lt eq make h = absurd h
inside_lem lt gt make h = absurd h
inside_lem eq q make h = absurd h
inside_lem gt q make h = absurd h

scalar_lem :
    (o p q : Ordering) (make : Scalar o p q → Char) (h : Scalar o p q) → scalar o p q make ≡ make h
scalar_lem lt p q make h = refl
scalar_lem eq p q make h = inside_lem p q make h
scalar_lem gt p q make h = inside_lem p q make h

abbrev char_of : ℕ → Char
char_of n = scalar (compare n 55296) (compare 57343 n) (compare n 1114112) (λ h. char n h)

char_of-code : (c : Char) → char_of (code c) ≡ c
char_of-code (char n h) =
    scalar_lem (compare n 55296) (compare 57343 n) (compare n 1114112) (λ h. char n h) h

-- The characters of a string and a 0, before the rest.
abbrev put_string : String → Bytes → Bytes
put_string String.[] rest = 0 ∷ rest
put_string (String.◌∷◌ c s) rest = suc (code c) ∷ put_string s rest

abbrev pub put_entries : Map String ValueEntry → Bytes
put_entries [] = []
put_entries ((k, e) ∷ m) = put_string k (put_string e.value (e.version ∷ put_entries m))

abbrev read_string : Bytes → String × Bytes
read_string [] = ("", [])
read_string (zero ∷ rest) = ("", rest)
read_string (suc n ∷ rest) = let (s, after) = read_string rest in (String.◌∷◌ (char_of n) s, after)

abbrev read_version : String → String → Bytes → (String × ValueEntry) × Bytes
read_version k v [] = ((k, record { value = v; version = 0 }), [])
read_version k v (n ∷ rest) = ((k, record { value = v; version = n }), rest)

abbrev read_entry : Bytes → (String × ValueEntry) × Bytes
read_entry bytes =
    let (k, bytes1) = read_string bytes in
    let (v, bytes2) = read_string bytes1 in read_version k v bytes2

abbrev read_entries : ℕ → Bytes → Map String ValueEntry
read_entries zero bytes = []
read_entries (suc n) bytes = let (e, rest) = read_entry bytes in e ∷ read_entries n rest

read_string-put : (s : String) (rest : Bytes) → read_string (put_string s rest) ≡ (s, rest)
read_string-put String.[] rest = refl
read_string-put (String.◌∷◌ c s) rest =
    ap (λ p. (String.◌∷◌ (char_of (code c)) p.0, p.1)) (read_string-put s rest)
    ∙ ap (λ d. (String.◌∷◌ d s, rest)) (char_of-code c)

read_entry-put :
    (k : String) (e : ValueEntry) (rest : Bytes)
    → read_entry (put_string k (put_string e.value (e.version ∷ rest))) ≡ ((k, e), rest)
read_entry-put k e rest =
    ap (λ (p : String × Bytes). let (v, bytes) = read_string p.1 in read_version p.0 v bytes)
      (read_string-put k (put_string e.value (e.version ∷ rest)))
    ∙ ap (λ (p : String × Bytes). read_version k p.0 p.1)
        (read_string-put e.value (e.version ∷ rest))

read_entries-put : (m : Map String ValueEntry) → read_entries (length m) (put_entries m) ≡ m
read_entries-put [] = refl
read_entries-put ((k, e) ∷ m) =
    ap (λ p. p.0 ∷ read_entries (length m) p.1) (read_entry-put k e (put_entries m))
    ∙ ap (λ r. (k, e) ∷ r) (read_entries-put m)

abbrev read_map : Bytes → Option (Map String ValueEntry)
read_map [] = none
read_map (n ∷ bytes) = some (read_entries n bytes)

abbrev pub json : Json
json = record { marshal = λ m. some (length m ∷ put_entries m); unmarshal = read_map }

pub json-RoundTrips : RoundTrips json
json-RoundTrips m b written =
    ap (λ (o : Option Bytes). elim o [ none ↦ none | some bytes ↦ read_map bytes ]) (sym written)
    ∙ ap some (read_entries-put m)
