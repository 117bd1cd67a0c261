-- ===== src/Api/Forms.antt =====
-- A body of Bitrix that is a form.
use claw_mux.Base.{
  ◌≡◌, refl, inl, inr, ◌⊎◌, if-both, Bool, true, false, not, ◌&&◌, Option, none, some, List, [],
  ◌∷◌, ◌==◌, text_key, Bool-cases, is_empty, Text, codes, strip, lstrip, contains,
}
use claw_mux.Base.Dict.{Dict}
use claw_mux.Web.Json.{
  Json, null, str, obj, end, truthy, get_or, find_field, default_to, or_else, ◌>>=◌,
}
use claw_mux.Api.Guard.{compare_digest, Reply}
use claw_mux.Api.Bitrix.{
  Request, Event, Status, fields_of, params_of, choose, event_of, dispatch, compared, checked,
  extract_inbound_token, bitrix_webhook_event,
}

-- A field of a form is a text, or missing.
abbrev Textual : Json → Type 0
Textual j = (j ≡ null) ⊎ ((t : Text) × (j ≡ str t))

found-Textual :
    (k : Text) (form : Dict Text Text) → Textual (default_to (find_field k (fields_of form)) null)
unfolding find_field
found-Textual k [] = inl refl
found-Textual k ((j, t) ∷ form) = elim (Bool-cases (j == k)) [
  | inl e ↦ rw e (inr (t, refl))
  | inr e ↦ rw e (found-Textual k form)
]

-- A text that is not empty, or a value that counts as false.
split : (j : Json) → Textual j → (truthy j ≡ false) ⊎ ((t : Text) × (j ≡ str t) × (truthy j ≡ true))
unfolding truthy
split j (inl e) = inl (rw e refl)
split j (inr (t, e)) = elim (Bool-cases (is_empty t)) [
  | inl n ↦ inl (rw e (rw n refl))
  | inr n ↦ inr (t, e, rw e (rw n refl))
]

module _ (render : Json → Text) (secret bot_id : Text) where
  -- Neither of the values that `params` can be in a form has a message.
  str-silent :
      (t : Text) → (dispatch render secret bot_id (event_of render secret bot_id (str t))).1 ≡ []
  unfolding event_of get_or
  str-silent t = refl

  end-silent : (dispatch render secret bot_id (event_of render secret bot_id (obj end))).1 ≡ []
  unfolding event_of get_or find_field truthy strip lstrip
  end-silent =
      if-both (λ (x : Reply Status × List Event). x.1 ≡ []) (not (is_empty bot_id) && [] == bot_id)
        refl refl

  choose-silent :
      (outer data_ : Json)
      → Textual outer
      → (data_ ≡ obj end) ⊎ ((t : Text) × (data_ ≡ str t))
      → (dispatch render secret bot_id
          (choose render secret bot_id outer data_ >>= event_of render secret bot_id)).1
        ≡ []
  unfolding get_or find_field truthy
  choose-silent outer data_ o (inl e) = rw e (elim (split outer o) [
    | inl f ↦ rw f end-silent
    | inr (t, s, f) ↦ rw f (rw s (str-silent t))
  ])
  choose-silent outer data_ o (inr (t, e)) = rw e refl

  data-Textual :
      (lower_data upper_data : Json)
      → Textual lower_data
      → Textual upper_data
      → (or_else lower_data (or_else upper_data (obj end)) ≡ obj end)
        ⊎ ((t : Text) × (or_else lower_data (or_else upper_data (obj end)) ≡ str t))
  data-Textual l u hl hu = elim (split l hl) [
    | inr (t, s, f) ↦ inr (t, rw f s)
    | inl f ↦ rw f (elim (split u hu) [ inr (t, s, g) ↦ inr (t, rw g s) | inl g ↦ inl (rw g refl) ])
  ]

  form-silent :
      (form : Dict Text Text)
      → (dispatch render secret bot_id (
          params_of render secret bot_id (obj (fields_of form))
          >>= event_of render secret bot_id)).1
        ≡ []
  unfolding params_of get_or
  form-silent form =
      choose-silent _ _ (found-Textual (codes "PARAMS") form)
        (data-Textual _ _ (found-Textual (codes "data") form) (found-Textual (codes "DATA") form))

  compared-silent :
      (form : Dict Text Text) (o : Option Bool)
      → (compared render secret bot_id (obj (fields_of form)) o).1 ≡ []
  compared-silent form none = refl
  compared-silent form (some true) = form-silent form
  compared-silent form (some false) = refl

  checked-silent :
      (form : Dict Text Text) (o : Option Text)
      → (checked render secret bot_id (obj (fields_of form)) o).1 ≡ []
  checked-silent form none = refl
  checked-silent form (some token) =
      if-both (λ (x : Reply Status × List Event). x.1 ≡ []) (is_empty token) refl
        (compared-silent form (compare_digest token secret))

  -- No request with a form in its body dispatches an event, whatever its fields and its token are.
  pub form_never_dispatches :
      (r : Request)
      → contains r.content_type (codes "application/json") ≡ false
      → (bitrix_webhook_event render secret bot_id r).1 ≡ []
  unfolding bitrix_webhook_event
  form_never_dispatches r h = rw h (
      if-both (λ (x : Reply Status × List Event). x.1 ≡ []) (is_empty secret) refl
        (checked-silent r.form (extract_inbound_token r (obj (fields_of r.form)))))
