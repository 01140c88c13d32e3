-- ===== src/Engine/Life/Records.antt =====
-- The numbers in the log of internal/engine/engine.go: what replaying records says about them.
use dist_log.Prelude.{
  ℕ, ◌≤◌, ◌<◌, ◌≡◌, ◌≢◌, refl, sym, ap, ◌∙◌, List, [], ◌∷◌, ◌++◌, Option, none, some, leb, ◌==◌,
  if◌then◌else◌, arith, Bool-cases, inl, inr,
}
use dist_log.Types.{DocId, LogRecord}
use dist_log.Types.Entries.{Entry}
use dist_log.Engine.Laws.Logged.{replayed}
use dist_log.Engine.Recovery.Kept.{AllBelow, replayed-AllBelow}

-- Numbers above `lo` and at most `hi`.
abbrev pub AllIn : ℕ → ℕ → List Entry → Type 0
AllIn lo hi [] = Unit
AllIn lo hi ((i, r) ∷ es) = (lo < i) × (i ≤ hi) × AllIn lo hi es

pub AllIn-mono :
    (lo lo' hi hi' : ℕ) (es : List Entry) → lo' ≤ lo → hi ≤ hi' → AllIn lo hi es → AllIn lo' hi' es
AllIn-mono lo lo' hi hi' [] p q h = tt
AllIn-mono lo lo' hi hi' ((i, r) ∷ es) p q (a, b, h) =
    (omega arith, omega arith, AllIn-mono lo lo' hi hi' es p q h)

pub AllIn-append :
    (lo hi : ℕ) (es : List Entry) (i : DocId) (r : LogRecord)
    → lo < i
    → i ≤ hi
    → AllIn lo hi es
    → AllIn lo hi (es ++ ((i, r) ∷ []))
AllIn-append lo hi [] i r p q h = (p, q, tt)
AllIn-append lo hi ((j, s) ∷ es) i r p q (a, b, h) = (a, b, AllIn-append lo hi es i r p q h)

pub AllIn-AllBelow : (lo hi : ℕ) (es : List Entry) → AllIn lo hi es → AllBelow hi es
AllIn-AllBelow lo hi [] h = tt
AllIn-AllBelow lo hi ((i, r) ∷ es) (a, b, h) = (b, AllIn-AllBelow lo hi es h)

pub AllBelow-mono : (n n' : ℕ) (es : List Entry) → n ≤ n' → AllBelow n es → AllBelow n' es
AllBelow-mono n n' [] p h = tt
AllBelow-mono n n' ((i, r) ∷ es) p h = (omega (arith, h.0), AllBelow-mono n n' es p h.1)

other_number :
    (k lo i : ℕ) (o : Option LogRecord) (r : LogRecord)
    → k ≤ lo
    → lo < i
    → (if i == k then some r else o) ≡ o
other_number k lo i o r p q = ground arith

-- Replaying greater numbers does nothing to a number.
pub replayed-AllIn :
    (k lo hi : ℕ) (o : Option LogRecord) (es : List Entry)
    → k ≤ lo
    → AllIn lo hi es
    → replayed k o es ≡ o
unfolding replayed
replayed-AllIn k lo hi o [] p h = refl
replayed-AllIn k lo hi o ((i, r) ∷ es) p (a, b, h) =
    ap (λ x. replayed k x es) (other_number k lo i o r p a) ∙ replayed-AllIn k lo hi o es p h

-- A number that the replay finds lies in the bounds of the records.
pub replayed_in :
    (k lo hi : ℕ) (es : List Entry)
    → AllIn lo hi es
    → replayed k none es ≢ none
    → (lo < k) × (k ≤ hi)
replayed_in k lo hi es h n = elim (Bool-cases (leb k lo)) [
  | inl p ↦ absurd (n (replayed-AllIn k lo hi none es (ground (arith, p)) h))
  | inr p ↦ elim (Bool-cases (leb k hi)) [
    | inl q ↦ (ground (arith, p), ground (arith, q))
    | inr q ↦
        absurd (n (replayed-AllBelow k hi none es (ground (arith, q)) (AllIn-AllBelow lo hi es h)))
  ]
]

-- Over a record the replay finds one.
replayed-some : (k : DocId) (r : LogRecord) (es : List Entry) → replayed k (some r) es ≢ none
unfolding replayed
replayed-some k r [] = λ h. cc
replayed-some k r ((i, q) ∷ es) = elim (Bool-cases (i == k)) [
  | inl e ↦ rw e (replayed-some k q es)
  | inr e ↦ rw e (replayed-some k r es)
]

replayed_more :
    (k : DocId) (o : Option LogRecord) (es : List Entry)
    → replayed k none es ≢ none
    → replayed k o es ≢ none
replayed_more k none es h = h
replayed_more k (some r) es h = replayed-some k r es

itself : (i : DocId) (r : LogRecord) → (if i == i then some r else none) ≡ some r
itself i r = ground arith

-- If the replay finds no number above `n`, then all records are at or below it.
pub found-AllBelow :
    (n : ℕ) (es : List Entry) → ((k : DocId) → replayed k none es ≢ none → k ≤ n) → AllBelow n es
unfolding replayed
found-AllBelow n [] h = tt
found-AllBelow n ((i, r) ∷ es) h = (
  h i (λ e. replayed-some i r es (sym (ap (λ o. replayed i o es) (itself i r)) ∙ e)),
  found-AllBelow n es (λ k p. h k (replayed_more k (if i == k then some r else none) es p)),
)
