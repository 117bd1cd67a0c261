-- ===== src/Telegram/Batch.antt =====
-- A batch of updates: the first ones of a stream whose ids rise.
use claw_mux.Base.{
  ℕ, zero, suc, ◌≤◌, ◌<◌, ◌≡◌, refl, sym, ap, ◌∙◌, inl, inr, Bool, true, false, Bool-cases, Option,
  none, some, some-inj, List, [], ◌∷◌, ◌++◌, append_assoc, append-nil, arith, leb, ltb, take, drop,
  if◌then◌else◌, text_key, Text, codes,
}
use claw_mux.Web.Json.{Json, num, bool, arr, obj, get_or}
use claw_mux.Telegram.Update.{Message, handle_update}
use claw_mux.Telegram.Poll.{Adapter, after_update, one_update, handle_updates}

-- The id of an update, if it has one.
abbrev pub number_of : Option Json → Option ℕ
number_of (some (num n)) = some n
number_of j = none

unfoldable pub id_of : Json → Option ℕ
id_of u = number_of (get_or u (codes "update_id") (num 0))

-- The ids rise, and are larger than `b`.
abbrev pub Rising : ℕ → List Json → Type 0
Rising b [] = Unit
Rising b (u ∷ us) = (n : ℕ) × (id_of u ≡ some n) × (b < n) × Rising n us

abbrev pub is_below : ℕ → Option ℕ → Bool
is_below o none = true
is_below o (some n) = ltb n o

-- The updates from an offset on.
unfoldable pub updates_from : ℕ → List Json → List Json
updates_from o [] = []
updates_from o (u ∷ us) =
    let rest = updates_from o us in if is_below o (id_of u) then rest else u ∷ us

module _ (render : Json → Text) where
  abbrev pub made : Option (Option Message) → List Message
  made (some (some m)) = m ∷ []
  made o = []

  -- The events of updates, in order: those that raise and those that are ignored make none.
  unfoldable pub events : List Json → List Message
  events [] = []
  events (u ∷ us) = made (handle_update render u) ++ events us

  pub events-append : (us vs : List Json) → events (us ++ vs) ≡ events us ++ events vs
  unfolding events
  events-append [] vs = refl
  events-append (u ∷ us) vs =
      ap (λ r. made (handle_update render u) ++ r) (events-append us vs)
      ∙ sym (append_assoc (made (handle_update render u)) (events us) (events vs))

  -- What one update does: the counter is its id, and its event, if any, is dispatched.
  record Stepped (a b : Adapter) (n : ℕ) (u : Json) : Type 0 where
    last_of : b.last_update_id ≡ n
    handler_of : b.has_handler ≡ a.has_handler
    dispatched_of :
        a.has_handler ≡ true → b.dispatched ≡ a.dispatched ++ made (handle_update render u)

  abbrev moved : Adapter → ℕ → Adapter
  moved a n = record a { last_update_id = n }

  after_update-Stepped :
      (a : Adapter) (n : ℕ) (u : Json) (o : Option (Option Message))
      → handle_update render u ≡ o
      → Stepped a (after_update render (moved a n) o).0 n u
  after_update-Stepped a n u none e = record {
    last_of = refl;
    handler_of = refl;
    dispatched_of = λ h. rw e (sym (append-nil a.dispatched));
  }
  after_update-Stepped a n u (some none) e = record {
    last_of = refl;
    handler_of = refl;
    dispatched_of = λ h. rw e (sym (append-nil a.dispatched));
  }
  after_update-Stepped a n u (some (some m)) e = record {
    last_of = ground arith;
    handler_of = ground arith;
    dispatched_of = λ h. rw e (rw h refl);
  }

  read_id : (o : Option Json) (n : ℕ) → number_of o ≡ some n → o ≡ some (num n)
  read_id none n h = cc
  read_id (some (num m)) n h = ap (λ k. some (num k)) (some-inj h)
  read_id (some Json.null) n h = cc
  read_id (some (bool b)) n h = cc
  read_id (some (Json.number t)) n h = cc
  read_id (some (Json.str t)) n h = cc
  read_id (some (arr js)) n h = cc
  read_id (some (obj fs)) n h = cc

  one_update-Stepped :
      (a : Adapter) (n : ℕ) (u : Json)
      → id_of u ≡ some n
      → a.last_update_id < n
      → Stepped a (one_update render u a).0 n u
  unfolding id_of
  one_update-Stepped a n u h l =
      rw (read_id (get_or u (codes "update_id") (num 0)) n h)
        (rw (below a.last_update_id n l) (after_update-Stepped a n u (handle_update render u) refl))
    where
      below : (m n : ℕ) → m < n → leb m n ≡ true
      below m n h = ground arith

  pub from-Rising : (b : ℕ) (us : List Json) → Rising b us → updates_from (suc b) us ≡ us
  unfolding updates_from
  from-Rising b [] r = refl
  from-Rising b (u ∷ us) (n, e, l, r) = rw e (rw (above n b l) refl)
    where
      above : (n b : ℕ) → b < n → ltb n (suc b) ≡ false
      above n b h = ground arith

  from_below :
      (o n : ℕ) (u : Json) (us : List Json)
      → id_of u ≡ some n
      → n < o
      → updates_from o (u ∷ us) ≡ updates_from o us
  unfolding updates_from
  from_below o n u us e l = rw e (rw (under n o l) refl)
    where
      under : (n o : ℕ) → n < o → ltb n o ≡ true
      under n o h = ground arith

  -- A batch of the first updates: some `k` of them are handled, the rest is still to come.
  pub record Handled (n : ℕ) (us : List Json) (a b : Adapter) : Type 0 where
    pub k : ℕ
    pub moves : 1 ≤ n → 1 ≤ k
    pub grows : a.last_update_id ≤ b.last_update_id
    pub handler : b.has_handler ≡ true
    pub from : updates_from (suc b.last_update_id) us ≡ drop k us
    pub rising : Rising b.last_update_id (drop k us)
    pub out : b.dispatched ≡ a.dispatched ++ events (take k us)

  one-Handled :
      (n m : ℕ) (u : Json) (us : List Json) (a b : Adapter)
      → id_of u ≡ some m
      → a.last_update_id < m
      → Rising m us
      → a.has_handler ≡ true
      → Stepped a b m u
      → Handled n (u ∷ us) a b
  unfolding events
  one-Handled n m u us a b e l r h t = record {
    k = 1;
    moves = λ i. omega arith;
    grows = omega (arith, t.last_of, l);
    handler = t.handler_of ∙ h;
    from =
        from_below (suc b.last_update_id) m u us e (omega (arith, t.last_of))
        ∙ from-Rising b.last_update_id us (rw t.last_of r);
    rising = rw t.last_of r;
    out =
        t.dispatched_of h
        ∙ ap (λ v. a.dispatched ++ v) (sym (append-nil (made (handle_update render u))));
  }

  more-Handled :
      (n m : ℕ) (u : Json) (us : List Json) (a b c : Adapter)
      → id_of u ≡ some m
      → a.last_update_id < m
      → a.has_handler ≡ true
      → Stepped a b m u
      → Handled n us b c
      → Handled (suc n) (u ∷ us) a c
  unfolding events
  more-Handled n m u us a b c e l h t d = record {
    k = suc d.k;
    moves = λ i. omega arith;
    grows = omega (arith, t.last_of, l, d.grows);
    handler = d.handler;
    from = from_below (suc c.last_update_id) m u us e (omega (arith, t.last_of, d.grows)) ∙ d.from;
    rising = d.rising;
    out =
        d.out
        ∙ ap (λ v. v ++ events (take d.k us)) (t.dispatched_of h)
        ∙ append_assoc a.dispatched (made (handle_update render u)) (events (take d.k us));
  }

  pub batch-Handled :
      (n : ℕ) (us : List Json) (a : Adapter)
      → Rising a.last_update_id us
      → a.has_handler ≡ true
      → Handled n us a (handle_updates render (take n us) a).0
  unfolding handle_updates events
  batch-Handled zero us a r h = record {
    k = 0;
    moves = λ i. i;
    grows = omega arith;
    handler = h;
    from = from-Rising a.last_update_id us r;
    rising = r;
    out = sym (append-nil a.dispatched);
  }
  batch-Handled (suc n) [] a r h = record {
    k = 1;
    moves = λ i. omega arith;
    grows = omega arith;
    handler = h;
    from = unfold updates_from in refl;
    rising = tt;
    out = sym (append-nil a.dispatched);
  }
  batch-Handled (suc n) (u ∷ us) a (m, e, l, r) h =
      let t = one_update-Stepped a m u e l in
      let b = (one_update render u a).0 in
      elim (Bool-cases (one_update render u a).1) [
        | inl x ↦ rw x (one-Handled (suc n) m u us a b e l r h t)
        | inr x ↦ rw x (
            more-Handled n m u us a b (handle_updates render (take n us) b).0 e l h t
              (batch-Handled n us b (rw t.last_of r) (t.handler_of ∙ h)))
      ]
