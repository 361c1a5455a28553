-- ===== src/Params/Render.antt =====
-- internal/params/template.go: rendering a template, and the sources of a forEach.
pub mod Laws
use fusion_wizard.Prelude.{
  ℕ, Bool, true, false, not, ◌&&◌, ◌||◌, Option, none, some, List, [], ◌∷◌, ◌++◌, map, Text, codes,
  Assoc, lookup, insert, is_empty, text_lt, if◌then◌else◌, String,
}
use fusion_wizard.Errors.{Message, text, format, end, text_arg, message_arg, Error, plain, wrap}
use fusion_wizard.Action.{Result, ok, err}
use fusion_wizard.Params.Values.{
  Value, text_value, number_value, bool_value, list_value, objects_value, Codec,
}
use fusion_wizard.Params.Filters.{Filter, apply_filter}
use fusion_wizard.Params.Template.{
  Ref, RefKind, ref_params, ref_config, ref_steps, ref_item, Segment, literal, placeholder,
  Template, parse,
}

-- A nil `Item` and nil `ItemFields` are `none`.
pub record Context : Type 0 where
  pub params : Assoc Value
  pub config : Assoc Text
  pub steps : Assoc (Assoc Text)
  pub item : Option Text
  pub item_fields : Option (Assoc Text)

-- `UnresolvedError`
abbrev pub unresolved : Text → Message → Error
unresolved raw reason =
    plain (format "cannot resolve ${%s}: %s" (text_arg raw (message_arg reason end)))

-- `v, ok := m[k]; if !ok { return nil, x }`
unfoldable pub or_error {ℓ} : {A : Type ℓ} → Error → Option A → Result A
or_error x none = err x
or_error x (some a) = ok a

unfoldable pub field_of : Ref → Option (Assoc Text) → Result Value
field_of r none = err (
    unresolved r.raw
      (format "needs an objectList forEach source (this one is a plain stringList)" end))
field_of r (some fields) = elim (lookup r.name fields) [
  | none ↦ err (unresolved r.raw (format "this forEach item has no field %q" (text_arg r.name end)))
  | some v ↦ ok (text_value v)
]

unfoldable pub lookup_item : Ref → Option Text → Context → Result Value
unfolding field_of
lookup_item r none c =
    err (unresolved r.raw (format "${item} is only available inside a forEach step" end))
lookup_item r (some item) c =
    if is_empty r.name then ok (text_value item) else field_of r c.item_fields

unfoldable pub lookup_output : Ref → Option (Assoc Text) → Result Value
lookup_output r none =
    err (unresolved r.raw (format "step %q has not produced outputs yet" (text_arg r.name end)))
lookup_output r (some outs) = elim (lookup r.key outs) [
  | none ↦
      err (
        unresolved r.raw (format "step %q has no output %q" (text_arg r.name (text_arg r.key end))))
  | some v ↦ ok (text_value v)
]

unfoldable pub lookup_kind : RefKind → Ref → Context → Result Value
unfolding lookup_item lookup_output or_error
lookup_kind ref_item r c = lookup_item r c.item c
lookup_kind ref_params r c =
    or_error (unresolved r.raw (format "parameter %q has no value" (text_arg r.name end)))
      (lookup r.name c.params)
lookup_kind ref_config r c = elim (lookup r.name c.config) [
  | none ↦ err (unresolved r.raw (format "instance config has no key %q" (text_arg r.name end)))
  | some v ↦ ok (text_value v)
]
lookup_kind ref_steps r c = lookup_output r (lookup r.name c.steps)

unfoldable pub lookup_ref : Ref → Context → Result Value
unfolding lookup_kind lookup
lookup_ref r c = lookup_kind r.kind r c

abbrev bool_text : Bool → Text
bool_text true = codes "true"
bool_text false = codes "false"

module _ (codec : Codec) where
  unfoldable pub stringify : Ref → Value → Result Text
  stringify r (text_value x) = ok x
  stringify r (number_value x) = ok x
  stringify r (bool_value x) = ok (bool_text x)
  stringify r (objects_value x) = ok (codec.marshal_objects x)
  stringify r (list_value x) = err (
      plain (
        format "cannot render ${%s}: a stringList can only be used as forEach"
          (text_arg r.raw end)))

  unfoldable pub apply_filters : List Filter → Text → Text
  apply_filters [] s = s
  apply_filters (f ∷ fs) s = apply_filters fs (apply_filter f s)

  -- one round of the loop of `Render` over a placeholder
  unfoldable pub render_ref : Ref → Context → Result Text
  unfolding lookup_ref stringify apply_filters
  render_ref r c = elim (lookup_ref r c) [
    | err x ↦ err x
    | ok v ↦ elim (stringify r v) [ err x ↦ err x | ok s ↦ ok (apply_filters r.filters s) ]
  ]

  -- the loop of `Render`, over what is written so far
  pub render_from : Context → Text → Template → Result Text
  render_from c b [] = ok b
  render_from c b (literal s ∷ rest) = render_from c (b ++ s) rest
  render_from c b (placeholder r ∷ rest) = elim (render_ref r c) [
    | err x ↦ err x
    | ok s ↦ render_from c (b ++ s) rest
  ]

  unfoldable pub render : Template → Context → Result Text
  unfolding render_from render_ref
  render t c = render_from c [] t

  unfoldable pub resolve : Text → Context → Result Text
  unfolding parse render
  resolve s c = elim (parse s) [ err x ↦ err x | ok t ↦ render t c ]

  -- the keys of a map, sorted
  unfoldable pub insert_key : Text × Text → Assoc Text → Assoc Text
  insert_key p [] = p ∷ []
  insert_key p (q ∷ qs) = if text_lt q.0 p.0 then q ∷ insert_key p qs else p ∷ q ∷ qs

  unfoldable pub by_key : Assoc Text → Assoc Text
  unfolding insert_key
  by_key [] = []
  by_key (p ∷ ps) = insert_key p (by_key ps)

  unfoldable pub resolve_loop :
      Assoc Text → Context → Assoc Text × List Error → Assoc Text × List Error
  resolve_loop [] c acc = acc
  resolve_loop ((k, s) ∷ rest) c (out, errs) = elim (resolve s c) [
    | err x ↦ resolve_loop rest c (out, errs ++ wrap (format "param %q" (text_arg k end)) x ∷ [])
    | ok v ↦ resolve_loop rest c (insert k v out, errs)
  ]

  -- `ResolveMap`: the map and the errors that it joins
  unfoldable pub resolve_map : Assoc Text → Context → Assoc Text × List Error
  unfolding resolve_loop by_key resolve
  resolve_map m c = resolve_loop (by_key m) c ([], [])

abbrev plain_param : RefKind → Ref → Option Text
plain_param ref_params r = if is_empty r.filters then some r.name else none
plain_param _ r = none

-- the condition of `ListRef` on the segments
abbrev single_param : Template → Option Text
single_param (placeholder r ∷ []) = plain_param r.kind r
single_param _ = none

unfoldable pub list_ref : Text → Result Text
unfolding parse
list_ref s = elim (parse s) [
  | err x ↦ err x
  | ok t ↦ elim (single_param t) [
    | some name ↦ ok name
    | none ↦ err (
        plain (
          format
            "forEach %q must be a single ${params.<name>} reference to a stringList or objectList parameter"
            (text_arg s end)))
  ]
]

pub record ForEachItem : Type 0 where
  pub key : Text
  pub fields : Option (Assoc Text)

-- `m["key"]`, the empty text where there is none
abbrev or_blank : Option Text → Text
or_blank none = []
or_blank (some t) = t

unfoldable pub items_of : Text → Text → Value → Result (List ForEachItem)
items_of s name (list_value l) = ok (map (λ i. record { key = i; fields = none }) l)
items_of s name (objects_value l) =
    ok (map (λ m. record { key = or_blank (lookup (codes "key") m); fields = some m }) l)
items_of s name _ = err (
    plain (
      format "forEach %q: parameter %q is not a stringList or objectList"
        (text_arg s (text_arg name end))))

unfoldable pub resolve_list : Text → Context → Result (List ForEachItem)
unfolding list_ref lookup_ref items_of
resolve_list s c = elim (list_ref s) [
  | err x ↦ err x
  | ok name ↦
      elim (lookup_ref
        (record {
          kind = ref_params;
          name = name;
          key = [];
          filters = [];
          raw = codes "params." ++ name;
        })
        c) [ err x ↦ err x | ok v ↦ items_of s name v ]
]
