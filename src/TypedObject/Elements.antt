-- ===== src/TypedObject/Elements.antt =====
-- The walks of src/support/dstypedobject.cpp to an array element and to a field.
use dbgscript.Base.{
  ◌==◌, Bool-cases, ℕ, ◌+◌, ◌%◌, ◌^◌, ◌≡◌, ◌≢◌, Bool, true, false, inl, inr, ◌⊎◌, arith, length,
  if◌then◌else◌,
}
use dbgscript.Console.{Text, Diagnostic}
use dbgscript.Exec.{HResult, ok, failed, e_invalidarg, e_nointerface, Reply, Result, err, of_reply}
use dbgscript.Engine.{TypedData, TypedDataOp, Advanced}
use dbgscript.Host.{Host, report}
use dbgscript.TypedObject.{
  TypedObject, ds_typed_object_get_field, ds_typed_object_get_array_element, sym_tag_pointer_type,
  sym_tag_array_type,
}

module _ {W : Type 0} (adv : Advanced W) where
  -- Walking to an element, by what it answers: a success is the answer of the engine for a pointer or
  -- an array, and prints nothing; a failure is either an object that is neither, an invalid argument,
  -- or the engine's own for a pointer or an array, and each prints its one line. For a pointer or an
  -- array the answer is always that of the engine.
  pub array_element_answer :
      (o : TypedObject) (index : ℕ) (h : Host W)
      → let asked : Result TypedData =
          of_reply (adv.request (TypedDataOp.get_array_element o.typed_data index) h.world) in
        let walkable : Type 0 =
          (o.typed_data.tag ≡ sym_tag_pointer_type) ⊎ (o.typed_data.tag ≡ sym_tag_array_type) in
        let r : Result TypedData × Host W = ds_typed_object_get_array_element adv o index h in
        ((d : TypedData) → r.0 ≡ ok d → walkable × (asked ≡ ok d) × (r.1 ≡ h))
        × ((hr : HResult)
            → r.0 ≡ err hr
            → ((¬ walkable)
                × (hr ≡ e_invalidarg)
                × (r.1 ≡ report Diagnostic.not_pointer_or_array h))
              ⊎ (walkable
                  × (asked ≡ err hr)
                  × (r.1 ≡ report (Diagnostic.get_array_element_failed hr) h)))
        × (walkable → r.0 ≡ asked)
  unfolding ds_typed_object_get_array_element
  array_element_answer o index h = (
    λ d e. (walked d e, ground arith, ground arith),
    λ hr e. elim (Bool-cases (o.typed_data.tag == sym_tag_pointer_type)) [
      | inl pointer ↦ inr (inl (ground arith), ground arith, ground arith)
      | inr other ↦ elim (Bool-cases (o.typed_data.tag == sym_tag_array_type)) [
        | inl array ↦ inr (inr (ground arith), ground arith, ground arith)
        | inr neither ↦
            inl (elim [ inl p ↦ ground arith | inr a ↦ ground arith ], ground arith, ground arith)
      ]
    ],
    elim [ inl pointer ↦ ground arith | inr array ↦ ground arith ],
  )
    where
      walked :
          (d : TypedData)
          → (ds_typed_object_get_array_element adv o index h).0 ≡ ok d
          → (o.typed_data.tag ≡ sym_tag_pointer_type) ⊎ (o.typed_data.tag ≡ sym_tag_array_type)
      walked d e = elim (Bool-cases (o.typed_data.tag == sym_tag_pointer_type)) [
        | inl pointer ↦ inl (ground arith)
        | inr other ↦ inr (ground arith)
      ]

  -- Walking to a field, once the memory for the request is there, answers what the engine answers for
  -- this field. A field that does not exist is reported only on demand, and any other failure always.
  pub field_answer :
      (malloc : ℕ → ℕ → Bool) (header : ℕ) (o : TypedObject) (field : Text) (print_missing : Bool)
      (h : Host W)
      → ((i n : ℕ) → malloc i n ≡ true)
      → let reply : Reply TypedData =
          adv.request (TypedDataOp.get_field o.typed_data field) h.world in
        let r : Result TypedData × Host W =
          ds_typed_object_get_field adv malloc header o field print_missing h in
        (r.0 ≡ of_reply reply)
        × (reply.0 ≡ e_nointerface
            → r.1 ≡ (if print_missing then report (Diagnostic.no_such_field field) h else h))
        × (reply.0 ≢ e_nointerface
            → failed reply.0 ≡ true
            → r.1 ≡ report (Diagnostic.get_field_failed reply.0) h)
        × (failed reply.0 ≡ false → r.1 ≡ h)
  unfolding ds_typed_object_get_field
  field_answer malloc header o field print_missing h there =
      let n : ℕ = (header + length field + 1) % 2 ^ 32 in
      (
        ground (arith, there 0 n, there 1 n),
        λ missing. ground (arith, there 0 n, there 1 n),
        λ other bad. ground (arith, there 0 n, there 1 n),
        λ good. ground (arith, there 0 n, there 1 n),
      )
