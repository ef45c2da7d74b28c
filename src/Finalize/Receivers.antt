-- ===== src/Finalize/Receivers.antt =====
-- Lemmas on calls of the caller's own class and of its parent.
use twai_swarm.Prelude.{
  ◌≡◌, refl, ◌↔◌, ◌⊎◌, inl, inr, String, true, false, Option, none, some, List, ◌∷◌, arith,
  string_eq, lookup, list_at, has_dot, dotted, split_first_dot, split_first_dot_lem, SplitFirst,
  split_first_dot-dotted, subst, ok, Bool-cases, Option-cases, List-cases,
}
use twai_swarm.Scope.{Declaration}
use twai_swarm.Scope.Dispatch.{MethodDispatchIndex, parent_of}
use twai_swarm.Scope.Dispatch.Resolution.{Ready, Answer, resolve_lem}
use twai_swarm.Finalize.Lookups.{Context}
use twai_swarm.Finalize.Calls.{
  is_self, is_super, declared_name, inherited, on_receiver, resolve_self_or_super,
}

-- The class that a receiver stands for, in a method of `class_qn`.
abbrev pub StandsFor : MethodDispatchIndex → String → String → String → Type 0
StandsFor index class_qn head target =
    ((head ≡ "self") ⊎ (head ≡ "this")) × (target ≡ class_qn)
    ⊎ ((head ≡ "super()") ⊎ (head ≡ "super"))
      × ((rest : List String) × (list_at class_qn index.parents ≡ target ∷ rest))

-- The caller is a method, and the callee a name with no dot after a receiver that stands for the
-- class.
abbrev pub CallOn : Context → MethodDispatchIndex → String → String → String → String → Type 0
CallOn c index caller_qn callee target name =
    (class_qn : String) × (head : String) × (lookup caller_qn c.caller_class_qn ≡ some class_qn)
    × (callee ≡ dotted head name)
    × (has_dot name ≡ false)
    × StandsFor index class_qn head target

is_self_iff : (head : String) → (is_self head ≡ true) ↔ ((head ≡ "self") ⊎ (head ≡ "this"))
is_self_iff head = ground (arith, string_eq.same_iff head "self", string_eq.same_iff head "this")

is_super_iff : (head : String) → (is_super head ≡ true) ↔ ((head ≡ "super()") ⊎ (head ≡ "super"))
is_super_iff head =
    ground (arith, string_eq.same_iff head "super()", string_eq.same_iff head "super")

parent_of_iff :
    (index : MethodDispatchIndex) (class_qn target : String)
    → (parent_of index class_qn ≡ some target)
      ↔ ((rest : List String) × (list_at class_qn index.parents ≡ target ∷ rest))
unfolding parent_of
parent_of_iff index class_qn target = elim (List-cases (list_at class_qn index.parents)) [
  | inl e ↦ (λ h. absurd (ground (arith, e)), λ (rest, h). absurd (cc (e, h)))
  | inr (x, xs, e) ↦ (λ h. (xs, ground (arith, e)), λ (rest, h). ground (arith, h))
]

StandsFor-plain :
    (index : MethodDispatchIndex) (class_qn head target : String)
    → StandsFor index class_qn head target
    → has_dot head ≡ false
StandsFor-plain index class_qn head target (inl (inl e, _)) = rw e refl
StandsFor-plain index class_qn head target (inl (inr e, _)) = rw e refl
StandsFor-plain index class_qn head target (inr (inl e, _)) = rw e refl
StandsFor-plain index class_qn head target (inr (inr e, _)) = rw e refl

module _ (c : Context) (index : MethodDispatchIndex) (caller_qn callee : String)
    (ready : Ready index) where
  -- What the search finds, and what is known of it.
  abbrev Found : Type 0
  Found =
      (res : Option Declaration) × (after : MethodDispatchIndex) × (resolve_self_or_super c
          caller_qn callee index
        ≡ ok (declared_name res, after))
      × Ready after
      × (((target : String) × (name : String) × CallOn c index caller_qn callee target name
            × Answer index target name res)
          ⊎ (res ≡ none)
            × (after ≡ index)
            × ((target name : String) → ¬ CallOn c index caller_qn callee target name))

  -- The split of the callee of a call on a class.
  CallOn-split :
      (target name : String)
      → CallOn c index caller_qn callee target name
      → (class_qn : String) × (head : String) × (lookup caller_qn c.caller_class_qn ≡ some class_qn)
        × (split_first_dot callee ≡ some (head, name))
        × (has_dot name ≡ false)
        × StandsFor index class_qn head target
  CallOn-split target name (class_qn, head, in_class, same, leaf, stands) = (
    class_qn,
    head,
    in_class,
    rw same (split_first_dot-dotted head name (StandsFor-plain index class_qn head target stands)),
    leaf,
    stands,
  )

  on_class :
      (class_qn head name : String)
      → lookup caller_qn c.caller_class_qn ≡ some class_qn
      → split_first_dot callee ≡ some (head, name)
      → has_dot name ≡ false
      → Found
  unfolding resolve_self_or_super on_receiver inherited
  on_class class_qn head name in_class split leaf =
      let parts : callee ≡ dotted head name =
        subst (SplitFirst callee) split (split_first_dot_lem callee) in
      elim (Bool-cases (is_self head)) [
        | inl own ↦
            let r = resolve_lem index class_qn name ready in
            (
              r.res,
              r.after,
              ground (arith, in_class, split, leaf, own, r.returns),
              r.ready,
              inl (
                class_qn,
                name,
                (class_qn, head, in_class, parts, leaf, inl ((is_self_iff head).0 own, refl)),
                r.answer,
              ),
            )
        | inr other ↦ elim (Bool-cases (is_super head)) [
          | inr foreign ↦ (
            none,
            index,
            ground (arith, in_class, split, leaf, other, foreign),
            ready,
            inr (
              refl,
              refl,
              λ target name' call.
                  let (class', head', _, split', _, stands) = CallOn-split target name' call in
                  let same : head' ≡ head = ground (arith, split, split') in
                  elim stands [
                    | inl (own, _) ↦ cc (other, same, (is_self_iff head').1 own)
                    | inr (above, _) ↦ cc (foreign, same, (is_super_iff head').1 above)
                  ],
            ),
          )
          | inl above ↦ elim (Option-cases (parent_of index class_qn)) [
            | inr (parent, at) ↦
                let r = resolve_lem index parent name ready in
                (
                  r.res,
                  r.after,
                  ground (arith, in_class, split, leaf, other, above, at, r.returns),
                  r.ready,
                  inl (
                    parent,
                    name,
                    (
                      class_qn,
                      head,
                      in_class,
                      parts,
                      leaf,
                      inr ((is_super_iff head).0 above, (parent_of_iff index class_qn parent).0 at),
                    ),
                    r.answer,
                  ),
                )
            | inl no_parent ↦ (
              none,
              index,
              ground (arith, in_class, split, leaf, other, above, no_parent),
              ready,
              inr (
                refl,
                refl,
                λ target name' call.
                    let (class', head', in', split', _, stands) = CallOn-split target name' call in
                    let same : head' ≡ head = ground (arith, split, split') in
                    let class_same : class' ≡ class_qn = ground (arith, in_class, in') in
                    elim stands [
                      | inl (own, _) ↦ cc (other, same, (is_self_iff head').1 own)
                      | inr (_, at) ↦
                          cc (no_parent, class_same, (parent_of_iff index class' target).1 at)
                    ],
              ),
            )
          ]
        ]
      ]

  found : Found
  unfolding resolve_self_or_super
  found = elim (Option-cases (lookup caller_qn c.caller_class_qn)) [
    | inl outside ↦ (
      none,
      index,
      ground (arith, outside),
      ready,
      inr (refl, refl, λ target name call. cc (outside, call.2)),
    )
    | inr (class_qn, in_class) ↦ elim (Option-cases (split_first_dot callee)) [
      | inl whole ↦ (
        none,
        index,
        ground (arith, in_class, whole),
        ready,
        inr (
          refl,
          refl,
          λ target name call.
              let (_, _, _, split', _, _) = CallOn-split target name call in cc (whole, split'),
        ),
      )
      | inr ((head, name), split) ↦ elim (Bool-cases (has_dot name)) [
        | inr leaf ↦ on_class class_qn head name in_class split leaf
        | inl chained ↦ (
          none,
          index,
          ground (arith, in_class, split, chained),
          ready,
          inr (
            refl,
            refl,
            λ target name' call.
                let (_, head', _, split', leaf, _) = CallOn-split target name' call in
                let same : name' ≡ name = ground (arith, split, split') in cc (same, leaf, chained),
          ),
        )
      ]
    ]
  ]

-- From a ready index the search returns, and the index it leaves is ready. If the caller is a method
-- and the callee is `self.name`, `this.name`, `super().name` or `super.name`, with no further dot,
-- it looks in the caller's class, or for the latter two in the first parent of it: it finds nothing
-- if neither that class nor an ancestor of it defines the name, its own method if it has one, else
-- an ancestor's method. For any other callee, and where there is no parent, it finds nothing and
-- leaves the index as it is.
pub resolve_self_or_super_lem :
    (c : Context) (index : MethodDispatchIndex) (caller_qn callee : String)
    → Ready index
    → (res : Option Declaration) × (after : MethodDispatchIndex) × (resolve_self_or_super c
          caller_qn callee index
        ≡ ok (declared_name res, after))
      × Ready after
      × (((target : String) × (name : String) × CallOn c index caller_qn callee target name
            × Answer index target name res)
          ⊎ (res ≡ none)
            × (after ≡ index)
            × ((target name : String) → ¬ CallOn c index caller_qn callee target name))
resolve_self_or_super_lem c index caller_qn callee ready = found c index caller_qn callee ready
