-- ===== src/Finalize/Rewrites.antt =====
-- Lemmas on the loops that rewrite the calls and the bases, and on the symbols.
use twai_swarm.Prelude.{
  ◌≡◌, refl, ◌⊎◌, inl, inr, String, true, Option, none, some, List, [], ◌∷◌, map, arith, string_eq,
  In, All, All-map, Distinct, member, member_iff, ok, Bool-cases,
}
use twai_swarm.Scope.{ScopeId}
use twai_swarm.Scope.Dispatch.{MethodDispatchIndex}
use twai_swarm.Actions.{SymbolNode, InheritsEdge, CallEdge}
use twai_swarm.Finalize.Lookups.{Context, is_function, is_class, resolve_parent}
use twai_swarm.Finalize.Anchors.{Known}
use twai_swarm.Finalize.Found.{Finds, resolve_parent-Finds}
use twai_swarm.Finalize.Searches.{Usable, resolve_call-Answers}
use twai_swarm.Finalize.{
  Rewritten, put_base, rewrite_inherits, put_call, rewrite_calls, new_symbols,
}

-- Two lists of the same length, related member by member.
abbrev pub Pairwise : {A : Type 0} → (A → A → Type 0) → List A → List A → Type 0
Pairwise R [] [] = Unit
Pairwise R (x ∷ xs) (y ∷ ys) = R x y × Pairwise R xs ys
Pairwise R _ _ = ⊥

pub Pairwise-map :
    {A : Type 0} (R S : A → A → Type 0) (xs ys : List A)
    → ((x y : A) → R x y → S x y)
    → Pairwise R xs ys
    → Pairwise S xs ys
Pairwise-map R S [] [] f h = tt
Pairwise-map R S [] (y ∷ ys) f h = absurd h
Pairwise-map R S (x ∷ xs) [] f h = absurd h
Pairwise-map R S (x ∷ xs) (y ∷ ys) f h = (f x y h.0, Pairwise-map R S xs ys f h.1)

pub Pairwise-refl :
    {A : Type 0} (R : A → A → Type 0) (xs : List A) → ((x : A) → R x x) → Pairwise R xs xs
Pairwise-refl R [] f = tt
Pairwise-refl R (x ∷ xs) f = (f x, Pairwise-refl R xs f)

-- The edge after the loop: all but the callee is as before, and so is the callee, unless it is
-- one of the targets now.
pub record CallKept (Target : String → Type 0) (old new : CallEdge) : Type 0 where
  pub repo : new.repo ≡ old.repo
  pub caller : new.caller_qn ≡ old.caller_qn
  pub line : new.line ≡ old.line
  pub callee : (new.callee_qn ≡ old.callee_qn) ⊎ Target new.callee_qn

pub record BaseKept (Target : String → Type 0) (old new : InheritsEdge) : Type 0 where
  pub repo : new.repo ≡ old.repo
  pub child : new.child_qn ≡ old.child_qn
  pub parent : (new.parent_qn ≡ old.parent_qn) ⊎ Target new.parent_qn

module _ (c : Context) where
  abbrev pub IsFunction : String → Type 0
  IsFunction qn = is_function c qn ≡ true

  abbrev pub IsClass : String → Type 0
  IsClass qn = is_class c qn ≡ true

  abbrev pub CallLinked : List String → CallEdge → Type 0
  CallLinked missing edge = (is_function c edge.callee_qn ≡ true) ⊎ In edge.callee_qn missing

  abbrev pub BaseLinked : List String → InheritsEdge → Type 0
  BaseLinked missing edge = (is_class c edge.parent_qn ≡ true) ⊎ In edge.parent_qn missing

  pub record CallsDone (old : List CallEdge) (r : Rewritten CallEdge) : Type 0 where
    pub kept : Pairwise (CallKept IsFunction) old r.0
    pub linked : All (CallLinked r.1) r.0
    pub needed : (qn : String) → In qn r.1 → In qn (map (λ e. e.callee_qn) r.0)

  pub record BasesDone (old : List InheritsEdge) (r : Rewritten InheritsEdge) : Type 0 where
    pub kept : Pairwise (BaseKept IsClass) old r.0
    pub linked : All (BaseLinked r.1) r.0
    pub needed : (qn : String) → In qn r.1 → In qn (map (λ e. e.parent_qn) r.0)

  put_call-Done :
      (edge : CallEdge) (found : Option String) (old : List CallEdge) (r : Rewritten CallEdge)
      → Finds (is_function c) found
      → CallsDone old r
      → CallsDone (edge ∷ old) (put_call edge found r)
  put_call-Done edge (some qn) old r f done = record {
    kept =
        (record { repo = refl; caller = refl; line = refl; callee = inr (f qn refl) }, done.kept);
    linked = (inl (f qn refl), done.linked);
    needed = λ q i. inr (done.needed q i);
  }
  put_call-Done edge none old r f done = record {
    kept = (record { repo = refl; caller = refl; line = refl; callee = inl refl }, done.kept);
    linked = (
      inr (inl refl),
      All-map (CallLinked r.1) (CallLinked (edge.callee_qn ∷ r.1)) r.0
          (λ e h. elim h [ inl t ↦ inl t | inr i ↦ inr (inr i) ]) done.linked,
    );
    needed = λ q i. elim i [ inl e ↦ inl e | inr j ↦ inr (done.needed q j) ];
  }

  put_base-Done :
      (edge : InheritsEdge) (found : Option String) (old : List InheritsEdge)
      (r : Rewritten InheritsEdge)
      → Finds (is_class c) found
      → BasesDone old r
      → BasesDone (edge ∷ old) (put_base edge found r)
  put_base-Done edge (some qn) old r f done = record {
    kept = (record { repo = refl; child = refl; parent = inr (f qn refl) }, done.kept);
    linked = (inl (f qn refl), done.linked);
    needed = λ q i. inr (done.needed q i);
  }
  put_base-Done edge none old r f done = record {
    kept = (record { repo = refl; child = refl; parent = inl refl }, done.kept);
    linked = (
      inr (inl refl),
      All-map (BaseLinked r.1) (BaseLinked (edge.parent_qn ∷ r.1)) r.0
          (λ e h. elim h [ inl t ↦ inl t | inr i ↦ inr (inr i) ]) done.linked,
    );
    needed = λ q i. elim i [ inl e ↦ inl e | inr j ↦ inr (done.needed q j) ];
  }

  pub rewrite_inherits-Done :
      (edges : List InheritsEdge) → BasesDone edges (rewrite_inherits c edges)
  unfolding rewrite_inherits
  rewrite_inherits-Done [] = record { kept = tt; linked = tt; needed = λ q i. i }
  rewrite_inherits-Done (edge ∷ edges) =
      put_base-Done edge (resolve_parent c edge.child_qn edge.parent_qn) edges
        (rewrite_inherits c edges) (resolve_parent-Finds c edge.child_qn edge.parent_qn)
        (rewrite_inherits-Done edges)

  pub rewrite_calls-Done :
      (scopes : List ScopeId)
      → Known c scopes
      → (index : MethodDispatchIndex) (edges : List CallEdge) → Usable c index
      → (r : Rewritten CallEdge) × (rewrite_calls c index edges ≡ ok r) × CallsDone edges r
  unfolding rewrite_calls
  rewrite_calls-Done scopes known index [] u =
      (([], []), refl, record { kept = tt; linked = tt; needed = λ q i. i })
  rewrite_calls-Done scopes known index (edge ∷ edges) u =
      let a = resolve_call-Answers c scopes known edge index u in
      let (r, returns, done) = rewrite_calls-Done scopes known a.after edges a.usable in
      (
        put_call edge a.found r,
        ground (arith, a.returns, returns),
        put_call-Done edge a.found edges r a.finds done,
      )

-- The symbols that the last loop adds.
pub record SymbolsDone (old : List SymbolNode) (needs : List String) (new : List SymbolNode)
    : Type 0 where
  pub covers :
      (qn : String)
      → In qn needs
      → In qn (map (λ s. s.qualified_name) old) ⊎ In qn (map (λ s. s.qualified_name) new)
  pub fresh :
      (qn : String)
      → In qn (map (λ s. s.qualified_name) new)
      → In qn needs × (¬ In qn (map (λ s. s.qualified_name) old))
  pub distinct : Distinct (map (λ s. s.qualified_name) new)

pub new_symbols-Done :
    (repo : String) (old : List SymbolNode) (needs : List String)
    → Distinct needs
    → SymbolsDone old needs (new_symbols repo (map (λ s. s.qualified_name) old) needs)
unfolding new_symbols
new_symbols-Done repo old [] d = record {
  covers = λ q i. absurd i;
  fresh = λ q i. absurd i;
  distinct = tt;
}
new_symbols-Done repo old (qn ∷ qns) d =
    let names = map (λ (s : SymbolNode). s.qualified_name) old in
    let done = new_symbols-Done repo old qns d.1 in
    elim (Bool-cases (member qn names)) [
      | inl known ↦ rw known (record {
        covers = λ q i. elim i [
          | inl same ↦ inl (rw same ((member_iff qn names).0 known))
          | inr j ↦ done.covers q j
        ];
        fresh = λ q i. (inr (done.fresh q i).0, (done.fresh q i).1);
        distinct = done.distinct;
      })
      | inr unknown ↦ rw unknown (record {
        covers = λ q i. elim i [
          | inl same ↦ inr (inl same)
          | inr j ↦ elim (done.covers q j) [ inl k ↦ inl k | inr k ↦ inr (inr k) ]
        ];
        fresh = λ q i. elim i [
          | inl same ↦ (inl same, rw same (λ k. cc (unknown, (member_iff qn names).1 k)))
          | inr j ↦ (inr (done.fresh q j).0, (done.fresh q j).1)
        ];
        distinct = (λ i. d.0 (done.fresh qn i).0, done.distinct);
      })
    ]
