-- ===== src/Controller/Manufacturing/Envelope.antt =====
-- What an accepted manufacturing result is known to satisfy.
use Prim.Native.String.{String}
use toi_no_mori_mvs.Common.{
  All, In, List, [], ap, arith, eq_iff, false, if◌then◌else◌, is_empty, is_empty-append_iff,
}
use toi_no_mori_mvs.Common.{
  is_empty_iff, member, member-sorted_set, not-false, or_not-false, refl, same_set_iff,
}
use toi_no_mori_mvs.Common.{sorted_set, sym, true, ℕ, ◌∙◌, ◌∷◌, ◌≡◌, ◌≤◌}
use toi_no_mori_mvs.Controller.Constants.{is_sha256, is_sha40, protocol}
use toi_no_mori_mvs.Controller.Decision.{Decision, collect, collect-nil_iff, manufactured, stopped}
use toi_no_mori_mvs.Controller.Manufacturing.{
  envelope_tests, is_iteration, manufacturing_decision, result_fields, same_texts,
}
use toi_no_mori_mvs.Controller.Manufacturing.{
  scope_reasons, texts_of, validate_manufacturing_result,
}
use toi_no_mori_mvs.Controller.Schema.Approved.{schema_validation_errors}
use toi_no_mori_mvs.Controller.Scope.{validate_scope}
use toi_no_mori_mvs.Controller.Scope.Acceptance.{IsInScope, validate_scope_iff}
use toi_no_mori_mvs.Controller.WorkOrder.{is_int_with, part}
use toi_no_mori_mvs.Python.Canonical.{content_hash}
use toi_no_mori_mvs.Python.Json.{Json, dict_or_empty, eq, eq-str, get, int, keys, obj, str}
use toi_no_mori_mvs.Python.Numbers.{negsuc, pos}
use toi_no_mori_mvs.Python.Platform.{Platform}
use toi_no_mori_mvs.Python.Result.{>>=-eq-ok, ok, ok_injective}

same_texts_sound : (xs ys : List String) → same_texts xs ys ≡ true → xs ≡ ys
same_texts_sound [] [] h = refl
same_texts_sound (x ∷ xs) (y ∷ ys) h =
    let first : x ≡ y = (eq_iff x y).0 (ground arith) in
    let rest : xs ≡ ys = same_texts_sound xs ys (ground arith) in cc
same_texts_sound [] (y ∷ ys) h = cc
same_texts_sound (x ∷ xs) [] h = cc

is_iteration_sound :
    (v : Json) → is_int_with is_iteration v ≡ true → (i : ℕ) × (v ≡ int (pos i)) × (1 ≤ i) × (i ≤ 4)
is_iteration_sound (int (pos i)) h = (i, refl, ground arith, ground arith)
is_iteration_sound (int (negsuc i)) h = cc
is_iteration_sound _ h = cc

-- A decision of `validate_scope` gives reasons exactly where it does not accept.
scope_accepted :
    (changed allowed prohibited : List String)
    → is_empty (scope_reasons (validate_scope changed allowed prohibited)) ≡ true
    → (validate_scope changed allowed prohibited).accepted ≡ true
unfolding validate_scope
scope_accepted changed allowed prohibited h = ground arith

module _ (p : Platform) (result work_order : Json) (patch_sha256 base_sha : String)
    (changed_paths : List String) where
  -- The envelope names this work order, base and patch, and reports the paths that changed; all of
  -- them are in the work order's scope.
  pub record IsEnvelope : Type 0 where
    pub schema_valid : schema_validation_errors p result "manufacturing-result.schema.json" ≡ ok []
    pub shape : (a : String) → member a (keys (dict_or_empty result)) ≡ member a result_fields
    pub named_protocol : get "protocol" (dict_or_empty result) ≡ str protocol
    pub role : get "role" (dict_or_empty result) ≡ str "codex_manufacturer"
    pub order_named :
        eq (get "work_order_id" (dict_or_empty result)) (get "id" (part "metadata" work_order))
        ≡ true
    pub order_hash :
        get "work_order_hash" (dict_or_empty result)
        ≡ str (content_hash p (obj (part "spec" work_order)))
    pub base : get "base_sha" (dict_or_empty result) ≡ str base_sha
    pub base_valid : is_sha40 base_sha ≡ true
    pub patch : get "patch_sha256" (dict_or_empty result) ≡ str patch_sha256
    pub patch_valid : is_sha256 patch_sha256 ≡ true
    pub reported :
        (a : String)
        → member a (texts_of "scope_changed" (dict_or_empty result)) ≡ member a changed_paths
    pub tests :
        (a : String)
        → member a (texts_of "tests_requested" (dict_or_empty result))
          ≡ member a (texts_of "required_tests" (part "spec" work_order))
    pub iteration : ℕ
    pub iteration_read : get "iteration" (dict_or_empty result) ≡ int (pos iteration)
    pub at_least_1 : 1 ≤ iteration
    pub at_most_4 : iteration ≤ 4
    pub in_scope :
        (path : String)
        → In path changed_paths
        → IsInScope
            (texts_of "scope" (part "spec" work_order))
            (texts_of "prohibited_paths" (part "spec" work_order))
            path

  envelope_sound :
      (errors : List String)
      → schema_validation_errors p result "manufacturing-result.schema.json" ≡ ok errors
      → All
          (λ r. r.0 ≡ false)
          (envelope_tests p errors
            (dict_or_empty result)
            (part "metadata" work_order)
            (part "spec" work_order)
            patch_sha256
            base_sha
            (sorted_set changed_paths))
      → (validate_scope
          (sorted_set changed_paths)
          (texts_of "scope" (part "spec" work_order))
          (texts_of "prohibited_paths" (part "spec" work_order))).accepted
        ≡ true
      → IsEnvelope
  unfolding envelope_tests
  envelope_sound errors schema
        (
          valid,
          (
            shape,
            (
              proto,
              (_, (role, (named, (hash, (base, (patch, (scope, (tests, (_, (iteration, _)))))))))),
            ),
          ),
        )
        accepted =
      let (i, read, low, high) = is_iteration_sound _ (not-false _ iteration) in
      let (base_named, base_valid) = or_not-false _ _ base in
      let (patch_named, patch_valid) = or_not-false _ _ patch in
      let fs = dict_or_empty result in
      let sorted : sorted_set (texts_of "scope_changed" fs) ≡ sorted_set changed_paths =
        same_texts_sound _ _ (not-false _ scope) in
      record {
        schema_valid = schema ∙ ap ok ((is_empty_iff errors).0 (not-false _ valid));
        shape = (same_set_iff (keys fs) result_fields).0 (not-false _ shape);
        named_protocol = eq-str _ _ (not-false _ proto);
        role = eq-str _ _ (not-false _ role);
        order_named = not-false _ named;
        order_hash = eq-str _ _ (not-false _ hash);
        base = eq-str _ _ base_named;
        base_valid = base_valid;
        patch = eq-str _ _ patch_named;
        patch_valid = patch_valid;
        reported = λ a.
            sym (member-sorted_set a (texts_of "scope_changed" fs))
            ∙ ap (member a) sorted
            ∙ member-sorted_set a changed_paths;
        tests = (same_set_iff _ _).0 (not-false _ tests);
        iteration = i;
        iteration_read = read;
        at_least_1 = low;
        at_most_4 = high;
        in_scope = λ path m.
            (validate_scope_iff (sorted_set changed_paths) _ _).0 accepted path
              (member-sorted_set path changed_paths ∙ m);
      }

  -- If a manufacturing result is accepted, it follows its schema, names the work order, the work
  -- order's content hash, the base commit and the patch, both given by valid hashes, reports exactly
  -- the paths that changed and the required tests, is one of the iterations 1 to 4, and every changed
  -- path is in the work order's scope. The state is then `qf:manufactured`, without a reason.
  pub validate_manufacturing_result_sound :
      (d : Decision)
      → validate_manufacturing_result p result work_order patch_sha256 base_sha changed_paths ≡ ok d
      → d.accepted ≡ true
      → IsEnvelope × (d.state ≡ manufactured)
  unfolding validate_manufacturing_result manufacturing_decision
  validate_manufacturing_result_sound d returned accepted =
      let (errors, schema, e) =
        >>=-eq-ok (schema_validation_errors p result "manufacturing-result.schema.json") _
          returned in
      let same = ok_injective e in
      let clean = ap (λ q. q.accepted) same ∙ accepted in
      let tests =
        envelope_tests p errors (dict_or_empty result) (part "metadata" work_order)
          (part "spec" work_order) patch_sha256 base_sha (sorted_set changed_paths) in
      let (problems, scope) = (is_empty-append_iff (collect tests) _).0 clean in
      (
        envelope_sound errors schema ((collect-nil_iff tests).0 problems)
            (scope_accepted _ _ _ scope),
        sym (ap (λ q. q.state) same) ∙ ap (λ b. if b then manufactured else stopped) clean,
      )
