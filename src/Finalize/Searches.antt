-- ===== src/Finalize/Searches.antt =====
-- Lemmas on the resolution of a call: it returns, and what it finds is a function of the batch.
use twai_swarm.Prelude.{
  ◌≡◌, refl, inl, inr, String, true, Option, none, some, List, [], ◌∷◌, arith, string_eq, lookup,
  get_or, has_dot, dotted, split_first_dot, split_dots, ok, Bool-cases, Option-cases,
}
use twai_swarm.Scope.{Declaration, ScopeId}
use twai_swarm.Scope.Dispatch.{MethodDispatchIndex, own_methods, parent_of}
use twai_swarm.Scope.Dispatch.Resolution.{Ready, Answer, resolve_lem}
use twai_swarm.Actions.{CallEdge}
use twai_swarm.Finalize.Lookups.{Context, is_function, accept, resolve_type_name, resolve_bare}
use twai_swarm.Finalize.Chains.{type_chain, chain_depths}
use twai_swarm.Finalize.Calls.{
  Search, ◌<|>◌, declared_name, inherited, method_of, param_method, resolve_dotted, resolve_in_file,
  resolve_callee, is_self, is_super, on_receiver, resolve_self_or_super, bound_class, method_on,
  resolve_var_binding, head_class, attribute_class, resolve_compound, resolve_parts,
  resolve_compound_receiver, resolve_call,
}
use twai_swarm.Finalize.Anchors.{Known}
use twai_swarm.Finalize.Found.{
  Finds, accept-Finds, or_else-Finds, resolve_bare-Finds, resolve_in_module-Finds,
  resolve_wildcard_class-Finds,
}
use twai_swarm.Finalize.Ending.{
  Returns, follow_name-Returns, follow_fields-Returns, resolve_type_chain-Returns,
}

-- The methods that the index lists are functions of the batch.
abbrev pub MethodsDeclared : Context → MethodDispatchIndex → Type 0
MethodsDeclared c index =
    (class_qn name : String) (d : Declaration)
    → lookup name (own_methods index class_qn) ≡ some d
    → is_function c d.qualified_name ≡ true

pub record Usable (c : Context) (index : MethodDispatchIndex) : Type 0 where
  pub ready : Ready index
  pub declared : MethodsDeclared c index

-- A search that returns, with nothing or with a function, and leaves a usable index.
pub record Answers (c : Context) (search : Search) : Type 0 where
  pub found : Option String
  pub after : MethodDispatchIndex
  pub returns : search ≡ ok (found, after)
  pub finds : Finds (is_function c) found
  pub usable : Usable c after

module _ (c : Context) where
  answered :
      (found : Option String) (index : MethodDispatchIndex)
      → Finds (is_function c) found
      → Usable c index
      → Answers c (ok (found, index))
  answered found index f u = record {
    found = found;
    after = index;
    returns = refl;
    finds = f;
    usable = u;
  }

  nothing : (index : MethodDispatchIndex) → Usable c index → Answers c (ok (none, index))
  nothing index u = answered none index (λ qn e. cc e) u

  -- The same answer for an equal search.
  Answers-eq : {s t : Search} → s ≡ t → Answers c t → Answers c s
  Answers-eq e a = rw e a

  fallback-Answers :
      (first : Search) (later : MethodDispatchIndex → Search)
      → Answers c first
      → ((index : MethodDispatchIndex) → Usable c index → Answers c (later index))
      → Answers c (first <|> later)
  fallback-Answers first later a f = elim (Option-cases a.found) [
    | inr (qn, hit) ↦ record {
      found = some qn;
      after = a.after;
      returns = ground (arith, a.returns, hit);
      finds = λ q e. a.finds q (ground (arith, hit));
      usable = a.usable;
    }
    | inl missing ↦ Answers-eq (ground (arith, a.returns, missing)) (f a.after a.usable)
  ]

  inherited-Answers :
      (class_qn name : String) (index : MethodDispatchIndex)
      → Usable c index
      → Answers c (inherited class_qn name index)
  unfolding inherited
  inherited-Answers class_qn name index u =
      let r = resolve_lem index class_qn name u.ready in
      let answer = r.answer in
      record {
        found = declared_name r.res;
        after = r.after;
        returns = ground (arith, r.returns);
        finds = listed r.res r.answer;
        usable = record {
          ready = r.ready;
          declared = λ k n d e. u.declared k n d (ground (arith, r.same_methods));
        };
      }
    where
      listed :
          (res : Option Declaration)
          → Answer index class_qn name res
          → Finds (is_function c) (declared_name res)
      listed none a qn e = cc e
      listed (some d) a qn e = elim a [
        | inl own ↦ ground (arith, u.declared class_qn name d own)
        | inr (no_own, (k, up, theirs)) ↦ ground (arith, u.declared k name d theirs)
      ]

  method_of-Answers :
      (class_qn name : String) (index : MethodDispatchIndex)
      → Usable c index
      → Answers c (method_of c class_qn name index)
  unfolding method_of
  method_of-Answers class_qn name index u =
      fallback-Answers _ (inherited class_qn name)
        (answered (accept (is_function c) (dotted class_qn name)) index
          (accept-Finds (is_function c) (dotted class_qn name)) u)
        (inherited-Answers class_qn name)

  param_method-Answers :
      (caller_qn file_path head rest : String) (index : MethodDispatchIndex)
      → Usable c index
      → Answers c (param_method c caller_qn file_path head rest index)
  unfolding param_method
  param_method-Answers caller_qn file_path head rest index u =
      elim (Option-cases (lookup head (get_or [] (lookup caller_qn c.func_param_types)))) [
        | inl missing ↦ Answers-eq (ground (arith, missing)) (nothing index u)
        | inr (type_text, typed) ↦ elim (Option-cases (resolve_type_name c file_path type_text)) [
          | inl missing ↦ Answers-eq (ground (arith, typed, missing)) (nothing index u)
          | inr (type_qn, hit) ↦ elim (Bool-cases (has_dot rest)) [
            | inl t ↦ Answers-eq (ground (arith, typed, hit, t)) (
                answered (accept (is_function c) (dotted type_qn rest)) index
                  (accept-Finds (is_function c) (dotted type_qn rest)) u)
            | inr t ↦
                Answers-eq (ground (arith, typed, hit, t)) (method_of-Answers type_qn rest index u)
          ]
        ]
      ]

  resolve_in_file-Answers :
      (caller_qn file_path callee : String) (index : MethodDispatchIndex)
      → Usable c index
      → Answers c (resolve_in_file c caller_qn file_path callee index)
  unfolding resolve_in_file resolve_dotted
  resolve_in_file-Answers caller_qn file_path callee index u =
      elim (Option-cases (split_first_dot callee)) [
        | inl bare ↦ Answers-eq (ground (arith, bare)) (
            answered (resolve_bare c (is_function c) file_path callee) index
              (resolve_bare-Finds (is_function c) c file_path callee) u)
        | inr ((head, rest), split) ↦ Answers-eq (ground (arith, split)) (
            fallback-Answers (param_method c caller_qn file_path head rest index) _
              (param_method-Answers caller_qn file_path head rest index u)
              (λ index' u'.
                answered _ index'
                  (or_else-Finds (is_function c) _ _
                    (resolve_in_module-Finds (is_function c) c file_path head rest)
                    (resolve_wildcard_class-Finds c file_path head rest))
                  u'))
      ]

  pub resolve_callee-Answers :
      (caller_qn callee : String) (index : MethodDispatchIndex)
      → Usable c index
      → Answers c (resolve_callee c caller_qn callee index)
  unfolding resolve_callee
  resolve_callee-Answers caller_qn callee index u =
      fallback-Answers _ _
        (answered (accept (is_function c) callee) index (accept-Finds (is_function c) callee) u)
        (λ index' u'. elim (Option-cases (lookup caller_qn c.func_file_path)) [
          | inl missing ↦ Answers-eq (ground (arith, missing)) (nothing index' u')
          | inr (file_path, at) ↦
              Answers-eq (ground (arith, at))
                (resolve_in_file-Answers caller_qn file_path callee index' u')
        ])

  on_receiver-Answers :
      (class_qn head name : String) (index : MethodDispatchIndex)
      → Usable c index
      → Answers c (on_receiver class_qn head name index)
  unfolding on_receiver
  on_receiver-Answers class_qn head name index u = elim (Bool-cases (is_self head)) [
    | inl own ↦ Answers-eq (ground (arith, own)) (inherited-Answers class_qn name index u)
    | inr other ↦ elim (Bool-cases (is_super head)) [
      | inr neither ↦ Answers-eq (ground (arith, other, neither)) (nothing index u)
      | inl above ↦ elim (Option-cases (parent_of index class_qn)) [
        | inl missing ↦ Answers-eq (ground (arith, other, above, missing)) (nothing index u)
        | inr (parent_qn, at) ↦
            Answers-eq (ground (arith, other, above, at)) (inherited-Answers parent_qn name index u)
      ]
    ]
  ]

  pub resolve_self_or_super-Answers :
      (caller_qn callee : String) (index : MethodDispatchIndex)
      → Usable c index
      → Answers c (resolve_self_or_super c caller_qn callee index)
  unfolding resolve_self_or_super
  resolve_self_or_super-Answers caller_qn callee index u =
      elim (Option-cases (lookup caller_qn c.caller_class_qn)) [
        | inl missing ↦ Answers-eq (ground (arith, missing)) (nothing index u)
        | inr (class_qn, at) ↦ elim (Option-cases (split_first_dot callee)) [
          | inl bare ↦ Answers-eq (ground (arith, at, bare)) (nothing index u)
          | inr ((head, rest), split) ↦ elim (Bool-cases (has_dot rest)) [
            | inl chained ↦ Answers-eq (ground (arith, at, split, chained)) (nothing index u)
            | inr leaf ↦
                Answers-eq (ground (arith, at, split, leaf))
                  (on_receiver-Answers class_qn head rest index u)
          ]
        ]
      ]

  method_on-Answers :
      (class_qn : Option String) (name : String) (index : MethodDispatchIndex)
      → Usable c index
      → Answers c (method_on c class_qn name index)
  unfolding method_on
  method_on-Answers none name index u = nothing index u
  method_on-Answers (some class_qn) name index u = method_of-Answers class_qn name index u

  module _ (scopes : List ScopeId) (known : Known c scopes) where
    pub bound_class-Returns : (caller_qn name : String) → Returns (bound_class c caller_qn name)
    unfolding bound_class
    bound_class-Returns caller_qn name = elim (Option-cases (lookup caller_qn c.func_scope_id)) [
      | inl missing ↦ (none, ground (arith, missing))
      | inr (s, at) ↦
          let (o, e) =
            follow_name-Returns c scopes known (type_chain c)
              (resolve_type_chain-Returns c scopes known chain_depths) s name
              (known.functions caller_qn s at) in
          (o, ground (arith, at, e))
    ]

    resolve_var_binding-Answers :
        (caller_qn callee : String) (index : MethodDispatchIndex)
        → Usable c index
        → Answers c (resolve_var_binding c caller_qn callee index)
    unfolding resolve_var_binding
    resolve_var_binding-Answers caller_qn callee index u =
        elim (Option-cases (split_first_dot callee)) [
          | inl bare ↦ Answers-eq (ground (arith, bare)) (nothing index u)
          | inr ((head, rest), split) ↦ elim (Bool-cases (has_dot rest)) [
            | inl chained ↦ Answers-eq (ground (arith, split, chained)) (nothing index u)
            | inr leaf ↦
                let (o, e) = bound_class-Returns caller_qn head in
                Answers-eq (ground (arith, split, leaf, e)) (method_on-Answers o rest index u)
          ]
        ]

    head_class-Returns : (caller_qn head : String) → Returns (head_class c caller_qn head)
    unfolding head_class
    head_class-Returns caller_qn head = elim (Bool-cases (is_self head)) [
      | inl own ↦ (lookup caller_qn c.caller_class_qn, ground (arith, own))
      | inr other ↦ let (o, e) = bound_class-Returns caller_qn head in (o, ground (arith, other, e))
    ]

    attribute_class-Returns :
        (start : Option String) (attrs : List String) → Returns (attribute_class c start attrs)
    unfolding attribute_class
    attribute_class-Returns none attrs = (none, refl)
    attribute_class-Returns (some class_qn) attrs =
        follow_fields-Returns c scopes known (type_chain c)
          (resolve_type_chain-Returns c scopes known chain_depths) attrs class_qn

    resolve_compound-Answers :
        (caller_qn head : String) (attrs : List String) (name : String)
        (index : MethodDispatchIndex)
        → Usable c index
        → Answers c (resolve_compound c caller_qn head attrs name index)
    unfolding resolve_compound
    resolve_compound-Answers caller_qn head attrs name index u =
        let (start, e) = head_class-Returns caller_qn head in
        let (class_qn, e') = attribute_class-Returns start attrs in
        Answers-eq (ground (arith, e, e')) (method_on-Answers class_qn name index u)

    resolve_parts-Answers :
        (caller_qn : String) (parts : List String) (index : MethodDispatchIndex)
        → Usable c index
        → Answers c (resolve_parts c caller_qn parts index)
    unfolding resolve_parts
    resolve_parts-Answers caller_qn [] index u = nothing index u
    resolve_parts-Answers caller_qn (head ∷ []) index u = nothing index u
    resolve_parts-Answers caller_qn (head ∷ a ∷ []) index u = nothing index u
    resolve_parts-Answers caller_qn (head ∷ a ∷ name ∷ []) index u =
        resolve_compound-Answers caller_qn head (a ∷ []) name index u
    resolve_parts-Answers caller_qn (head ∷ a ∷ b ∷ name ∷ []) index u =
        resolve_compound-Answers caller_qn head (a ∷ b ∷ []) name index u
    resolve_parts-Answers caller_qn (head ∷ a ∷ b ∷ d ∷ e ∷ rest) index u = nothing index u

    pub resolve_call-Answers :
        (edge : CallEdge) (index : MethodDispatchIndex)
        → Usable c index
        → Answers c (resolve_call c edge index)
    unfolding resolve_call resolve_compound_receiver
    resolve_call-Answers edge index u =
        fallback-Answers _ (resolve_compound_receiver c edge.caller_qn edge.callee_qn)
          (fallback-Answers _ (resolve_var_binding c edge.caller_qn edge.callee_qn)
            (fallback-Answers _ (resolve_self_or_super c edge.caller_qn edge.callee_qn)
              (resolve_callee-Answers edge.caller_qn edge.callee_qn index u)
              (resolve_self_or_super-Answers edge.caller_qn edge.callee_qn))
            (resolve_var_binding-Answers edge.caller_qn edge.callee_qn))
          (resolve_parts-Answers edge.caller_qn (split_dots edge.callee_qn))
