-- ===== src/Reviewer/Tally.antt =====
-- Lemmas on _pick_winner_from_pairwise: the two counters, and the rank by them.
use twai_swarm.Prelude.{
  ℕ, suc, ◌+◌, ◌≤◌, ◌<◌, ◌≡◌, ◌≢◌, refl, ap, ◌⊎◌, inl, inr, Bool, true, false, ◌&&◌, some, List, [],
  ◌∷◌, arith, nat_eq, ◌==◌, lookup, lookup-insert, insert, get_or, is_some, In, Dict, head?-sort_by,
  if◌then◌else◌,
}
use twai_swarm.Reviewer.{
  PairwiseResult, Counts, zeros, count_result, count_results, ranks_before,
  pick_winner_from_pairwise, wins_of,
}

pub consistent_wins_of : ℕ → List PairwiseResult → ℕ
consistent_wins_of idx [] = 0
consistent_wins_of idx (pr ∷ rest) =
    let n = consistent_wins_of idx rest in
    if pr.winner == idx && pr.position_swap_consistent then suc n else n

-- Both counters know the survivor.
record Counted (c : Counts) (idx : ℕ) : Type 0 where
  wins : is_some (lookup idx c.win_count) ≡ true
  consistent : is_some (lookup idx c.consistent_win_count) ≡ true

abbrev count_at : ℕ → Dict ℕ ℕ → ℕ
count_at idx d = get_or 0 (lookup idx d)

count_result-Counted :
    (c : Counts) (pr : PairwiseResult) (idx : ℕ) → Counted c idx → Counted (count_result c pr) idx
unfolding count_result
count_result-Counted c pr idx h = ground (
  arith,
  lookup-insert pr.winner idx (suc (count_at pr.winner c.win_count)) c.win_count,
  lookup-insert pr.winner idx (suc (count_at pr.winner c.consistent_win_count))
      c.consistent_win_count,
)

count_result-wins :
    (c : Counts) (pr : PairwiseResult) (idx : ℕ)
    → Counted c idx
    → count_at idx (count_result c pr).win_count ≡ count_at idx c.win_count + wins_of idx (pr ∷ [])
unfolding count_result wins_of
count_result-wins c pr idx h = ground (
  arith,
  lookup-insert pr.winner idx (suc (count_at pr.winner c.win_count)) c.win_count,
  nat_eq.same_iff pr.winner idx,
)

count_result-consistent :
    (c : Counts) (pr : PairwiseResult) (idx : ℕ)
    → Counted c idx
    → count_at idx (count_result c pr).consistent_win_count
      ≡ count_at idx c.consistent_win_count + consistent_wins_of idx (pr ∷ [])
unfolding count_result consistent_wins_of
count_result-consistent c pr idx h = ground (
  arith,
  lookup-insert pr.winner idx (suc (count_at pr.winner c.consistent_win_count))
      c.consistent_win_count,
  nat_eq.same_iff pr.winner idx,
)

wins_of-cons :
    (idx : ℕ) (pr : PairwiseResult) (rs : List PairwiseResult)
    → wins_of idx (pr ∷ rs) ≡ wins_of idx (pr ∷ []) + wins_of idx rs
unfolding wins_of
wins_of-cons idx pr rs = ground arith

consistent_wins_of-cons :
    (idx : ℕ) (pr : PairwiseResult) (rs : List PairwiseResult)
    → consistent_wins_of idx (pr ∷ rs)
      ≡ consistent_wins_of idx (pr ∷ []) + consistent_wins_of idx rs
unfolding consistent_wins_of
consistent_wins_of-cons idx pr rs = ground arith

count_results-wins :
    (c : Counts) (rs : List PairwiseResult) (idx : ℕ)
    → Counted c idx
    → (count_at idx (count_results c rs).win_count ≡ count_at idx c.win_count + wins_of idx rs)
      × (count_at idx (count_results c rs).consistent_win_count
          ≡ count_at idx c.consistent_win_count + consistent_wins_of idx rs)
count_results-wins c [] idx h =
    unfold count_results wins_of consistent_wins_of in (omega arith, omega arith)
count_results-wins c (pr ∷ rs) idx h =
    step (count_results-wins (count_result c pr) rs idx (count_result-Counted c pr idx h))
  where
    step :
        (count_at idx (count_results (count_result c pr) rs).win_count
            ≡ count_at idx (count_result c pr).win_count + wins_of idx rs)
          × (count_at idx (count_results (count_result c pr) rs).consistent_win_count
              ≡ count_at idx (count_result c pr).consistent_win_count + consistent_wins_of idx rs)
        → (count_at idx (count_results c (pr ∷ rs)).win_count
            ≡ count_at idx c.win_count + wins_of idx (pr ∷ rs))
          × (count_at idx (count_results c (pr ∷ rs)).consistent_win_count
              ≡ count_at idx c.consistent_win_count + consistent_wins_of idx (pr ∷ rs))
    step (a, b) =
        unfold count_results in
        (
          omega (arith, a, count_result-wins c pr idx h, wins_of-cons idx pr rs),
          omega (arith, b, count_result-consistent c pr idx h, consistent_wins_of-cons idx pr rs),
        )

zeros-at :
    (survivors : List ℕ) (d : Dict ℕ ℕ) (idx : ℕ)
    → In idx survivors ⊎ (lookup idx d ≡ some 0)
    → lookup idx (zeros survivors d) ≡ some 0
unfolding zeros
zeros-at [] d idx h = ground arith
zeros-at (s ∷ rest) d idx h = zeros-at rest (insert s 0 d) idx (elim h [
  | inl (inl e) ↦ inr (ground (arith, lookup-insert s idx 0 d, nat_eq.same_iff s idx))
  | inl (inr i) ↦ inl i
  | inr e ↦ inr (ground (arith, lookup-insert s idx 0 d))
])

-- `w` ranks at least as high as `s`: more wins, then more wins that both orders agree on, then the
-- lower index.
abbrev pub RanksBefore : List PairwiseResult → ℕ → ℕ → Type 0
RanksBefore rs w s =
    (wins_of s rs < wins_of w rs)
    ⊎ (wins_of s rs ≡ wins_of w rs)
      × ((consistent_wins_of s rs < consistent_wins_of w rs)
          ⊎ (consistent_wins_of s rs ≡ consistent_wins_of w rs) × (w ≤ s))

ranks_before_total : (c : Counts) (i j : ℕ) → ranks_before c i j ≡ false → ranks_before c j i ≡ true
unfolding ranks_before
ranks_before_total c i j h = ground arith

ranks_before_trans :
    (c : Counts) (i j k : ℕ)
    → ranks_before c i j ≡ true
    → ranks_before c j k ≡ true
    → ranks_before c i k ≡ true
unfolding ranks_before
ranks_before_trans c i j k h l = ground arith

-- Of at least one survivor a winner is picked, which is a survivor and ranks at least as high as
-- every survivor: by the pairs that it won, then by those of them in which both orders agreed, then
-- by the lower index.
pub pick_winner_lem :
    (survivors : List ℕ) (rs : List PairwiseResult)
    → survivors ≢ []
    → (w : ℕ) × (pick_winner_from_pairwise survivors rs ≡ some w)
      × In w survivors
      × ((s : ℕ) → In s survivors → RanksBefore rs w s)
unfolding pick_winner_from_pairwise
pick_winner_lem survivors rs ne =
    let (w, e, i, least) = head?-sort_by le total trans survivors ne in
    (w, e, i, λ s j. ranked w s i j (least s j))
  where
    start : Counts
    start = record { win_count = zeros survivors []; consistent_win_count = zeros survivors [] }

    c : Counts
    c = count_results start rs

    le : ℕ → ℕ → Bool
    le = ranks_before c

    counted : (s : ℕ) → In s survivors → Counted start s
    counted s i = record {
      wins = rw (zeros-at survivors [] s (inl i)) refl;
      consistent = rw (zeros-at survivors [] s (inl i)) refl;
    }

    wins : (s : ℕ) → In s survivors → count_at s c.win_count ≡ wins_of s rs
    wins s i = omega (
      arith,
      (count_results-wins start rs s (counted s i)).0,
      ap (get_or 0) (zeros-at survivors [] s (inl i)),
    )

    consistent :
        (s : ℕ) → In s survivors → count_at s c.consistent_win_count ≡ consistent_wins_of s rs
    consistent s i = omega (
      arith,
      (count_results-wins start rs s (counted s i)).1,
      ap (get_or 0) (zeros-at survivors [] s (inl i)),
    )

    ranked : (w s : ℕ) → In w survivors → In s survivors → le w s ≡ true → RanksBefore rs w s
    ranked w s i j h =
        unfold ranks_before in ground (arith, wins w i, wins s j, consistent w i, consistent s j)

    total : (a b : ℕ) → le a b ≡ false → le b a ≡ true
    total = ranks_before_total c

    trans : (x y z : ℕ) → le x y ≡ true → le y z ≡ true → le x z ≡ true
    trans = ranks_before_trans c
