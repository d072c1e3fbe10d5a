-- ===== src/Raft/Examples.antt =====
-- Concrete peers for the witnesses: three peers, commands that are numbers, and an encoding of the
-- durable state as a list of numbers.
use mit.Base.{ℕ, zero, suc, ◌≡◌, refl, Option, none, some, List, [], ◌∷◌, arith}
use mit.Raft.State.{Raft, Entry, Durable, Gob, Bytes, Persister, make}
use mit.Raft.Recovery.{IsFaithful}

abbrev number : Option ℕ → ℕ
number none = 0
number (some n) = suc n

abbrev option : ℕ → Option ℕ
option zero = none
option (suc n) = some n

abbrev flat : List (Entry ℕ) → Bytes
flat [] = []
flat (e ∷ es) = e.term ∷ number e.command ∷ flat es

abbrev entries : Bytes → List (Entry ℕ)
entries [] = []
entries (t ∷ []) = []
entries (t ∷ c ∷ rest) = record { term = t; command = option c } ∷ entries rest

abbrev plain_decode : Bytes → Option (Durable ℕ)
plain_decode (t ∷ v ∷ i ∷ s ∷ rest) = some (record {
  current_term = t;
  voted_for = option v;
  logs = entries rest;
  last_included_index = i;
  last_included_term = s;
})
plain_decode _ = none

abbrev pub plain : Gob ℕ
plain = record {
  encode = λ d.
      d.current_term
      ∷ number d.voted_for
      ∷ d.last_included_index
      ∷ d.last_included_term
      ∷ flat d.logs;
  decode = plain_decode;
}

option-number : (o : Option ℕ) → option (number o) ≡ o
option-number none = refl
option-number (some n) = refl

entries-flat : (es : List (Entry ℕ)) → entries (flat es) ≡ es
entries-flat [] = refl
entries-flat (e ∷ es) = ground (arith, option-number e.command, entries-flat es)

pub plain-IsFaithful : IsFaithful plain
plain-IsFaithful = record {
  round_trip = λ d. ground (arith, option-number d.voted_for, entries-flat d.logs);
  some_bytes = λ d. cc;
}

abbrev pub blank_disk : Persister
blank_disk = record { raft_state = []; snapshot = [] }

abbrev pub entry : ℕ → ℕ → Entry ℕ
entry term command = record { term = term; command = some command }

abbrev pub booted : Raft ℕ
booted = make plain 3 0 blank_disk
