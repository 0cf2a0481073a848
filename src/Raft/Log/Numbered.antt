-- ===== src/Raft/Log/Numbered.antt =====
-- Logs whose entries carry their positions: what the reads of a log give there.
use rustchain.Base.{
  ℕ, suc, ◌+◌, ◌≤◌, ◌<◌, ◌^◌, ◌≡◌, refl, subst, true, Option, none, some, List, [], ◌∷◌, ◌++◌,
  length, length-take, take-append-drop, Option-cases, inl, inr, take, drop, last_or, find, arith,
  nat_eq, ◌==◌,
}
use native.Mathlib.Nat.{zero-add}
use rustchain.Data.{RaftLogEntry}
use rustchain.Raft.Log.{
  last_log_index, log_entry, term_at, has_term, contiguous_from, entries_are_contiguous_after,
}

-- The entries carry the indexes from `n + 1` on.
abbrev pub Numbered : ℕ → List RaftLogEntry → Type 0
Numbered n [] = Unit
Numbered n (e ∷ es) = (e.index ≡ suc n) × Numbered (suc n) es

Numbered-at : (m n : ℕ) (xs : List RaftLogEntry) → m ≡ n → Numbered m xs → Numbered n xs
Numbered-at m n xs e h = subst (λ k. Numbered k xs) e h

pub Numbered-append :
    (n : ℕ) (xs ys : List RaftLogEntry)
    → Numbered n xs
    → Numbered (n + length xs) ys
    → Numbered n (xs ++ ys)
Numbered-append n [] ys hx hy = Numbered-at _ _ ys (omega arith) hy
Numbered-append n (x ∷ xs) ys hx hy =
    (hx.0, Numbered-append (suc n) xs ys hx.1 (Numbered-at _ _ ys (omega arith) hy))

pub Numbered-drop_front :
    (n : ℕ) (xs ys : List RaftLogEntry) → Numbered n (xs ++ ys) → Numbered (n + length xs) ys
Numbered-drop_front n [] ys h = Numbered-at _ _ ys (omega arith) h
Numbered-drop_front n (x ∷ xs) ys h =
    Numbered-at _ _ ys (omega arith) (Numbered-drop_front (suc n) xs ys h.1)

Numbered-front_at : (n : ℕ) (xs ys : List RaftLogEntry) → Numbered n (xs ++ ys) → Numbered n xs
Numbered-front_at n [] ys h = tt
Numbered-front_at n (x ∷ xs) ys h = (h.0, Numbered-front_at (suc n) xs ys h.1)

pub Numbered-front : (xs ys : List RaftLogEntry) → Numbered 0 (xs ++ ys) → Numbered 0 xs
Numbered-front xs ys h = Numbered-front_at 0 xs ys h

pub last_or-append :
    (d : ℕ) (xs : List RaftLogEntry) (e : RaftLogEntry)
    → last_or (λ (x : RaftLogEntry). x.index) d (xs ++ e ∷ []) ≡ e.index
last_or-append d [] e = refl
last_or-append d (x ∷ xs) e = last_or-append x.index xs e

last_or-Numbered :
    (n : ℕ) (xs : List RaftLogEntry)
    → Numbered n xs
    → last_or (λ (x : RaftLogEntry). x.index) n xs ≡ n + length xs
last_or-Numbered n [] h = omega arith
last_or-Numbered n (x ∷ xs) h = rw h.0 (omega (arith, last_or-Numbered (suc n) xs h.1))

-- The last index of a log is its length.
pub last_log_index-length :
    (log : List RaftLogEntry) → Numbered 0 log → last_log_index log ≡ length log
unfolding last_log_index
last_log_index-length log h = omega (arith, last_or-Numbered 0 log h)

find_past :
    (n i : ℕ) (xs : List RaftLogEntry)
    → Numbered n xs
    → i ≤ n
    → find (λ (e : RaftLogEntry). e.index == i) xs ≡ none
unfolding find
find_past n i [] h le = refl
find_past n i (x ∷ xs) h le = ground (arith, find_past (suc n) i xs h.1)

abbrev head : List RaftLogEntry → Option RaftLogEntry
head [] = none
head (x ∷ xs) = some x

find-split :
    (n : ℕ) (xs ys : List RaftLogEntry)
    → Numbered n (xs ++ ys)
    → find (λ (e : RaftLogEntry). e.index == suc (n + length xs)) (xs ++ ys) ≡ head ys
unfolding find
find-split n [] [] h = refl
find-split n [] (y ∷ ys) h = ground arith
find-split n (x ∷ xs) ys h = ground (arith, find-split (suc n) xs ys h.1)

-- Between a front of the log and the rest stands the entry with the next index.
pub log_entry-split :
    (xs ys : List RaftLogEntry)
    → Numbered 0 (xs ++ ys)
    → log_entry (xs ++ ys) (suc (length xs)) ≡ head ys
unfolding log_entry
log_entry-split xs ys h = simp zero-add at (find-split 0 xs ys h)

contiguous_from-Numbered :
    (p o : ℕ) (es : List RaftLogEntry)
    → p + o + length es < 2 ^ 64
    → contiguous_from p o es ≡ true
    → Numbered (p + o) es
unfolding contiguous_from
contiguous_from-Numbered p o [] small h = tt
contiguous_from-Numbered p o (e ∷ es) small h = (
  ground arith,
  Numbered-at _ _ es (omega arith)
      (contiguous_from-Numbered p (suc o) es (omega arith) (ground arith)),
)

-- The test of the source on the entries of a request, where their indexes do not wrap.
pub entries_are_contiguous_after-Numbered :
    (p : ℕ) (es : List RaftLogEntry)
    → p + length es < 2 ^ 64
    → entries_are_contiguous_after p es ≡ true
    → Numbered p es
unfolding entries_are_contiguous_after
entries_are_contiguous_after-Numbered p es small h =
    Numbered-at _ _ es (omega arith) (contiguous_from-Numbered p 0 es (omega arith) h)

pub take-length_append : (xs ys : List RaftLogEntry) → take (length xs) (xs ++ ys) ≡ xs
take-length_append [] ys = refl
take-length_append (x ∷ xs) ys = ground (arith, take-length_append xs ys)

pub drop-length_append : (xs ys : List RaftLogEntry) → drop (length xs) (xs ++ ys) ≡ ys
drop-length_append [] ys = refl
drop-length_append (x ∷ xs) ys = drop-length_append xs ys

find_in :
    (n i : ℕ) (xs : List RaftLogEntry) (e : RaftLogEntry)
    → Numbered n xs
    → find (λ (x : RaftLogEntry). x.index == i) xs ≡ some e
    → i ≤ n + length xs
unfolding find
find_in n i [] e h found = cc
find_in n i (x ∷ xs) e h found = ground (arith, find_in (suc n) i xs e h.1)

-- A request's previous entry is one of the log.
pub has_term-le :
    (log : List RaftLogEntry) (p t : ℕ) → Numbered 0 log → has_term log p t ≡ true → p ≤ length log
unfolding has_term term_at log_entry
has_term-le log p t h found = elim (Option-cases (find (λ (x : RaftLogEntry). x.index == p) log)) [
  | inl missing ↦ ground arith
  | inr (e, there) ↦ omega (arith, find_in 0 p log e h there)
]

pub Numbered-rest :
    (p : ℕ) (log : List RaftLogEntry) → p ≤ length log → Numbered 0 log → Numbered p (drop p log)
Numbered-rest p log le h =
    Numbered-at _ _ _ (omega (arith, length-take p log))
      (Numbered-drop_front 0 (take p log) (drop p log) (rw (take-append-drop p log) h))
