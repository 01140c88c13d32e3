-- ===== src/Types/Allocator.antt =====
-- `DocIDAllocator` of internal/types/allocator.go. Each atomic step is one function on the counter.
use dist_log.Prelude.{
  ℕ, suc, ◌+◌, ◌%◌, ◌^◌, ◌≤◌, ◌<◌, ◌≡◌, refl, List, [], ◌∷◌, arith, leb, if◌then◌else◌,
}

pub record DocIdAllocator : Type 0 where
  pub counter : ℕ

abbrev pub new_doc_id_allocator : DocIdAllocator
new_doc_id_allocator = record { counter = 0 }

-- `a.next.Add(1)` on a uint64.
unfoldable pub next : DocIdAllocator → ℕ × DocIdAllocator
next a = let n = (a.counter + 1) % 2 ^ 64 in (n, record { counter = n })

-- The retry loop of `Observe` ends with one compare-and-swap that found the value it had loaded.
unfoldable pub observe : ℕ → DocIdAllocator → DocIdAllocator
observe seen a = if leb seen a.counter then a else record { counter = seen }

unfoldable pub peek : DocIdAllocator → ℕ
peek a = a.counter

-- What the atomics make of concurrent calls: some sequence of them.
pub data Call : Type 0 where
  call_next : Call
  call_observe : ℕ → Call

-- The numbers that `Next` returned, in order, and the allocator afterwards.
unfoldable pub run : List Call → DocIdAllocator → List ℕ × DocIdAllocator
unfolding next observe
run [] a = ([], a)
run (call_next ∷ cs) a = let (n, a') = next a in let (ns, b) = run cs a' in (n ∷ ns, b)
run (call_observe seen ∷ cs) a = run cs (observe seen a)

-- Each returned number is above `k` and above all that were returned or observed before it.
abbrev pub AllFresh : ℕ → List Call → List ℕ → Type 0
AllFresh k [] ns = ns ≡ []
AllFresh k (call_next ∷ cs) [] = ⊥
AllFresh k (call_next ∷ cs) (n ∷ ns) = (k < n) × AllFresh n cs ns
AllFresh k (call_observe seen ∷ cs) ns = AllFresh (if leb seen k then k else seen) cs ns

-- How many calls of `Next` a sequence makes.
abbrev pub nexts : List Call → ℕ
nexts [] = 0
nexts (call_next ∷ cs) = suc (nexts cs)
nexts (call_observe seen ∷ cs) = nexts cs

-- The highest value that a sequence observes, and `k` at least.
abbrev pub highest : ℕ → List Call → ℕ
highest k [] = k
highest k (call_next ∷ cs) = highest k cs
highest k (call_observe seen ∷ cs) = highest (if leb seen k then k else seen) cs

highest_mono : (j k : ℕ) (cs : List Call) → j ≤ k → highest j cs ≤ highest k cs
highest_mono j k [] h = h
highest_mono j k (call_next ∷ cs) h = highest_mono j k cs h
highest_mono j k (call_observe seen ∷ cs) h =
    highest_mono (if leb seen j then j else seen) (if leb seen k then k else seen) cs (ground arith)

le-highest : (k : ℕ) (cs : List Call) → k ≤ highest k cs
le-highest k [] = omega arith
le-highest k (call_next ∷ cs) = le-highest k cs
le-highest k (call_observe seen ∷ cs) =
    ground (arith, le-highest (if leb seen k then k else seen) cs)

highest_suc : (k : ℕ) (cs : List Call) → highest (k + 1) cs ≤ highest k cs + 1
highest_suc k [] = omega arith
highest_suc k (call_next ∷ cs) = highest_suc k cs
highest_suc k (call_observe seen ∷ cs) = ground (
  arith,
  highest_suc k cs,
  highest_suc seen cs,
  le-highest seen cs,
  highest_mono seen (k + 1) cs,
  highest_mono (k + 1) seen cs,
)

counter-observe :
    (seen : ℕ) (a : DocIdAllocator)
    → (observe seen a).counter ≡ (if leb seen a.counter then a.counter else seen)
unfolding observe
counter-observe seen a = ground arith

-- For any sequence of calls that does not run the counter out of 64 bits, every number that `Next`
-- returns is greater than all numbers that were returned or observed before it.
pub run-AllFresh :
    (cs : List Call) (a : DocIdAllocator)
    → highest a.counter cs + nexts cs < 2 ^ 64
    → AllFresh a.counter cs (run cs a).0
unfolding run
run-AllFresh [] a h = refl
run-AllFresh (call_next ∷ cs) a h =
    let e : (a.counter + 1) % 2 ^ 64 ≡ a.counter + 1 = omega (arith, le-highest a.counter cs) in
    let ih =
      run-AllFresh cs (record { counter = (a.counter + 1) % 2 ^ 64 })
        (omega (
          arith,
          e,
          highest_mono ((a.counter + 1) % 2 ^ 64) (a.counter + 1) cs,
          highest_suc a.counter cs,
        )) in
    (omega arith, ih)
run-AllFresh (call_observe seen ∷ cs) a h =
    let e = counter-observe seen a in rw (← e) (run-AllFresh cs (observe seen a) (rw e h))
