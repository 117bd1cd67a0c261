-- ===== src/Telegram/Polled.antt =====
-- The updates that the loop of polls hands on. The server keeps a stream of updates in the order of
-- their ids; to a request it answers the first ones from the offset on, as many as it likes.
use claw_mux.Base.{
  ℕ, zero, suc, ◌+◌, ◌≤◌, ◌≡◌, refl, sym, ap, ◌∙◌, inl, inr, Bool, true, false, Bool-cases, Option,
  none, some, List, [], ◌∷◌, ◌++◌, arith, nat_eq, length, take, drop, drop-add, take-add, take_all,
  list_eq, text_key, Text, codes,
}
use claw_mux.Web.Json.{
  Json, Items, bool, arr, obj, nil, cons, field, end, to_list, get_or, find_field, truthy,
}
use claw_mux.Telegram.Poll.{
  Adapter, new, Answer, failed, response, handle_updates, after_batch, poll_turn, offset, start,
  read_me, logged_in,
}
use claw_mux.Telegram.Batch.{
  id_of, is_below, Rising, updates_from, events, events-append, from-Rising, Handled, batch-Handled,
}

abbrev pub items : List Json → Items
items [] = nil
items (u ∷ us) = cons u (items us)

abbrev pub body : List Json → Json
body us = obj (field (codes "ok") (bool true) (field (codes "result") (arr (items us)) end))

-- A request that is answered with at most so many updates, or one that is not answered with "ok".
pub data Poll : Type 0 where
  answered : ℕ → Poll
  error : ℕ → Option Json → Poll
  lost : Poll

-- How many updates a poll moves at least.
abbrev pub least : Poll → ℕ
least (answered zero) = 0
least (answered (suc n)) = 1
least p = 0

abbrev pub fruitful : List Poll → ℕ
fruitful [] = 0
fruitful (p ∷ ps) = least p + fruitful ps

module _ (render : Json → Text) where
  abbrev pub answer_to : List Json → Poll → Adapter → Answer
  answer_to stream (answered n) a =
      response 200 (some (body (take n (updates_from (offset a) stream))))
  answer_to stream (error status j) a = response (suc (200 + status)) j
  answer_to stream lost a = failed

  unfoldable pub polls : List Json → List Poll → Adapter → Adapter
  polls stream [] a = a
  polls stream (p ∷ ps) a = polls stream ps (poll_turn render (answer_to stream p a) a).0

  after_batch-same : (x : Adapter × Bool) → (after_batch render x).0 ≡ x.0
  after_batch-same (a, false) = refl
  after_batch-same (a, true) = refl

  to_list-items : (us : List Json) → to_list (items us) ≡ us
  to_list-items [] = refl
  to_list-items (u ∷ us) = ap (λ vs. u ∷ vs) (to_list-items us)

  turn-answered :
      (us : List Json) (a : Adapter)
      → (poll_turn render (response 200 (some (body us))) a).0 ≡ (handle_updates render us a).0
  unfolding poll_turn get_or find_field truthy list_eq
  turn-answered us a =
      after_batch-same (handle_updates render (to_list (items us)) a)
      ∙ ap (λ v. (handle_updates render v a).0) (to_list-items us)

  turn-error :
      (status : ℕ) (j : Option Json) (a : Adapter)
      → (poll_turn render (response (suc (200 + status)) j) a).0 ≡ a
  unfolding poll_turn
  turn-error status j a = rw (beyond status) refl
    where
      beyond : (n : ℕ) → nat_eq (suc (200 + n)) 200 ≡ false
      beyond n = ground arith

  is_below-up : (o o' : ℕ) (m : Option ℕ) → o ≤ o' → is_below o m ≡ true → is_below o' m ≡ true
  is_below-up o o' none h e = refl
  is_below-up o o' (some n) h e = ground arith

  turn-lost : (a : Adapter) → (poll_turn render failed a).0 ≡ a
  unfolding poll_turn
  turn-lost a = refl

  updates_from-again :
      (o o' : ℕ) (us : List Json)
      → o ≤ o'
      → updates_from o' (updates_from o us) ≡ updates_from o' us
  unfolding updates_from
  updates_from-again o o' [] h = refl
  updates_from-again o o' (u ∷ us) h = elim (Bool-cases (is_below o (id_of u))) [
    | inl e ↦ rw e (rw (is_below-up o o' (id_of u) h e) (updates_from-again o o' us h))
    | inr e ↦ rw e refl
  ]

  -- After `k` updates of the stream: the counter stands between them and the rest.
  record After (stream : List Json) (k : ℕ) (a : Adapter) : Type 0 where
    from : updates_from (offset a) stream ≡ drop k stream
    rising : Rising a.last_update_id (drop k stream)
    handler : a.has_handler ≡ true
    out : a.dispatched ≡ events render (take k stream)

  Handled-After :
      (stream : List Json) (k n : ℕ) (a b : Adapter)
      → After stream k a
      → (d : Handled render n (drop k stream) a b) → After stream (k + d.k) b
  unfolding offset
  Handled-After stream k n a b h d = record {
    from =
        sym (updates_from-again (offset a) (offset b) stream (omega (arith, d.grows)))
        ∙ ap (updates_from (offset b)) h.from
        ∙ d.from
        ∙ sym (drop-add k d.k stream);
    rising = rw (drop-add k d.k stream) d.rising;
    handler = d.handler;
    out =
        d.out
        ∙ ap (λ v. v ++ events render (take d.k (drop k stream))) h.out
        ∙ sym (events-append render (take k stream) (take d.k (drop k stream)))
        ∙ ap (events render) (sym (take-add k d.k stream));
  }

  still :
      (stream : List Json) (k : ℕ) (a b : Adapter)
      → b ≡ a
      → After stream k a
      → (j : ℕ) × (0 ≤ j) × After stream (k + j) b
  still stream k a b e h = (0, omega arith, rw (plus_zero k) (rw e h))
    where
      plus_zero : (n : ℕ) → n + 0 ≡ n
      plus_zero n = omega arith

  turn-After :
      (stream : List Json) (k : ℕ) (a : Adapter) (p : Poll)
      → After stream k a
      → (j : ℕ) × (least p ≤ j) × After stream (k + j) (poll_turn render (answer_to stream p a) a).0
  turn-After stream k a (answered n) h =
      let b = (handle_updates render (take n (drop k stream)) a).0 in
      let d = batch-Handled render n (drop k stream) a h.rising h.handler in
      (
        d.k,
        enough n d.k d.moves,
        rw h.from
            (rw (turn-answered (take n (drop k stream)) a) (Handled-After stream k n a b h d)),
      )
    where
      enough : (n j : ℕ) → (1 ≤ n → 1 ≤ j) → least (answered n) ≤ j
      enough zero j h = omega arith
      enough (suc n) j h = h (omega arith)
  turn-After stream k a (error status j) h = still stream k a _ (turn-error status j a) h
  turn-After stream k a lost h = still stream k a _ (turn-lost a) h

  polls-After :
      (stream : List Json) (ps : List Poll) (k : ℕ) (a : Adapter)
      → After stream k a
      → (j : ℕ) × (fruitful ps ≤ j) × After stream (k + j) (polls stream ps a)
  unfolding polls
  polls-After stream [] k a h = still stream k a a refl h
  polls-After stream (p ∷ ps) k a h =
      let (i, m, g) = turn-After stream k a p h in
      let (j, n, f) =
        polls-After stream ps (k + i) (poll_turn render (answer_to stream p a) a).0 g in
      (i + j, omega (arith, m, n), rw (assoc k i j) f)
    where
      assoc : (a b c : ℕ) → a + (b + c) ≡ a + b + c
      assoc a b c = omega arith

  start-After :
      (stream : List Json) (me : Answer) → Rising 0 stream → After stream 0 (start render me new).1
  unfolding start events offset
  start-After stream me r = logged_in-After (read_me render me)
    where
      logged_in-After :
          (o : Option Text)
          → After stream 0
              (logged_in render (record new { running = true; has_handler = true }) o).1
      logged_in-After none = record {
        from = from-Rising render 0 stream r;
        rising = r;
        handler = refl;
        out = refl;
      }
      logged_in-After (some id) = record {
        from = from-Rising render 0 stream r;
        rising = r;
        handler = refl;
        out = refl;
      }

-- Polls that are answered, refused or lost in any order, with batches of any size: what has been
-- dispatched are the events of the first `k` updates of the server's stream, each once and in order,
-- and the next request asks for exactly the updates behind them. An update that raises is passed over.
pub polls_exact :
    (render : Json → Text) (stream : List Json) (me : Answer) (ps : List Poll)
    → Rising 0 stream
    → (k : ℕ) × ((polls render stream ps (start render me new).1).dispatched
        ≡ events render (take k stream))
      × (updates_from (offset (polls render stream ps (start render me new).1)) stream
          ≡ drop k stream)
polls_exact render stream me ps r =
    let (j, n, h) =
      polls-After render stream ps 0 (start render me new).1 (start-After render stream me r) in
    (0 + j, h.out, h.from)

-- Once as many polls as there are updates have been answered with an update, whatever is refused or
-- lost between them, the event of every update has been dispatched.
pub polls_complete :
    (render : Json → Text) (stream : List Json) (me : Answer) (ps : List Poll)
    → Rising 0 stream
    → length stream ≤ fruitful ps
    → (polls render stream ps (start render me new).1).dispatched ≡ events render stream
polls_complete render stream me ps r enough =
    let (j, n, h) =
      polls-After render stream ps 0 (start render me new).1 (start-After render stream me r) in
    h.out ∙ ap (events render) (take_all (0 + j) stream (omega (arith, n, enough)))
