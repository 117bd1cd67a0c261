-- ===== src/Manager/Exclusion.antt =====
-- Which operations of one user exclude each other.
use claw_mux.Base.{
  ℕ, suc, ◌≤◌, ◌<◌, ◌≡◌, ◌≢◌, refl, sym, ap, ◌∙◌, some-inj, Bool, true, false, Option, none, some,
  List, [], ◌∷◌, nat_eq, nat_eq_iff, if◌then◌else◌, if-cases, arith, All,
}
use claw_mux.Manager.Locks.{
  Phase, outside, waiting, inside, Locks, new, set, created, get_lock, queued, arrive_from, arrive,
  taken_by, enter_from, enter, leave_from, leave, Move, arrives, enters, leaves, moves,
}

-- The lock object that an operation in this phase has, and is known to the state.
abbrev Known : ℕ → (ℕ → Option ℕ) → ℕ → Phase → Type 0
Known n owner i outside = Unit
Known n owner i (waiting l c) = l < n
Known n owner i (inside l c) = (l < n) × (owner l ≡ some i)

record Inv (s : Locks) : Type 0 where
  known : (i : ℕ) → Known s.next_lock s.owner i (s.phase i)
  fresh : (l : ℕ) → s.next_lock ≤ l → s.owner l ≡ none
  entry : (l : ℕ) → s.current ≡ some l → l < s.next_lock

-- Without a `close_connection`, everybody has the user's entry.
abbrev Shared : Option ℕ → Phase → Type 0
Shared current outside = Unit
Shared current (waiting l c) = (current ≡ some l) × (c ≡ false)
Shared current (inside l c) = (current ≡ some l) × (c ≡ false)

abbrev AllShared : Locks → Type 0
AllShared s = (i : ℕ) → Shared s.current (s.phase i)

set_all :
    {A : Type 0} (P : ℕ → A → Type 0) (f : ℕ → A) (i : ℕ) (a : A)
    → ((j : ℕ) → i ≢ j → P j (f j))
    → P i a
    → (j : ℕ) → P j (set f i a j)
set_all P f i a h p j =
    if-cases (P j) (nat_eq i j) (λ e. rw ((nat_eq_iff i j).0 e) at p)
      (λ e. h j (λ q. cc (e, (nat_eq_iff i j).1 q)))

Known-more :
    (n : ℕ) (owner : ℕ → Option ℕ) (i : ℕ) (p : Phase) → Known n owner i p → Known (suc n) owner i p
Known-more n owner i outside h = tt
Known-more n owner i (waiting l c) h = omega arith
Known-more n owner i (inside l c) (h, e) = (omega arith, e)

arrive-Inv : (i : ℕ) (closing : Bool) (s : Locks) → Inv s → Inv (arrive i closing s)
unfolding arrive get_lock
arrive-Inv i closing s v = go (s.phase i)
  where
    queue : (o : Option ℕ) → s.current ≡ o → Inv (queued i closing (created s o))
    queue none e = record {
      known =
          set_all (Known (suc s.next_lock) s.owner) s.phase i (waiting s.next_lock closing)
            (λ j h. Known-more s.next_lock s.owner j (s.phase j) (v.known j)) (omega arith);
      fresh = λ l h. v.fresh l (omega arith);
      entry = λ l h. omega (arith, some-inj h);
    }
    queue (some l) e = record {
      known =
          set_all (Known s.next_lock s.owner) s.phase i (waiting l closing) (λ j h. v.known j)
            (v.entry l e);
      fresh = v.fresh;
      entry = v.entry;
    }

    go : (p : Phase) → Inv (arrive_from p i closing s)
    go outside = queue s.current refl
    go (waiting l c) = v
    go (inside l c) = v

set_self : {A : Type 0} (f : ℕ → A) (i : ℕ) (a : A) → set f i a i ≡ a
set_self f i a = rw ((nat_eq_iff i i).1 refl) refl

set_other : {A : Type 0} (f : ℕ → A) (i : ℕ) (a : A) (j : ℕ) → i ≢ j → set f i a j ≡ f j
set_other f i a j h =
    if-cases (λ x. x ≡ f j) (nat_eq i j) (λ e. absurd (h ((nat_eq_iff i j).0 e))) (λ e. refl)

-- A change of the owner of a lock object that is not `j`'s.
Known-set :
    (n : ℕ) (owner : ℕ → Option ℕ) (l : ℕ) (o : Option ℕ) (j : ℕ) (p : Phase)
    → owner l ≢ some j
    → Known n owner j p
    → Known n (set owner l o) j p
Known-set n owner l o j outside h k = tt
Known-set n owner l o j (waiting m c) h k = k
Known-set n owner l o j (inside m c) h (k, e) =
    (k, set_other owner l o m (λ q. h (ap owner q ∙ e)) ∙ e)

enter-Inv : (i : ℕ) (s : Locks) → Inv s → Inv (enter i s)
unfolding enter
enter-Inv i s v = go (s.phase i) (v.known i)
  where
    take :
        (l : ℕ) (c : Bool) (o : Option ℕ)
        → s.owner l ≡ o
        → l < s.next_lock
        → Inv (taken_by o i l c s)
    take l c (some j) e h = v
    take l c none e h = record {
      known =
          set_all (Known s.next_lock (set s.owner l (some i))) s.phase i (inside l c)
            (λ j q.
              Known-set s.next_lock s.owner l (some i) j (s.phase j) (λ w. cc (e, w)) (v.known j))
            (h, set_self s.owner l (some i));
      fresh = λ m k. set_other s.owner l (some i) m (λ q. omega (arith, q)) ∙ v.fresh m k;
      entry = v.entry;
    }

    go : (p : Phase) → Known s.next_lock s.owner i p → Inv (enter_from p i s)
    go outside k = v
    go (waiting l c) k = take l c (s.owner l) refl k
    go (inside l c) k = v

leave-Inv : (i : ℕ) (s : Locks) → Inv s → Inv (leave i s)
unfolding leave
leave-Inv i s v = go (s.phase i) (v.known i)
  where
    popped : (c : Bool) (l : ℕ) → (if c then none else s.current) ≡ some l → l < s.next_lock
    popped true l h = cc
    popped false l h = v.entry l h

    go : (p : Phase) → Known s.next_lock s.owner i p → Inv (leave_from p i s)
    go outside k = v
    go (waiting l c) k = v
    go (inside l c) (h, e) = record {
      known =
          set_all (Known s.next_lock (set s.owner l none)) s.phase i outside
            (λ j q.
              Known-set s.next_lock s.owner l none j (s.phase j) (λ w. q (some-inj (sym e ∙ w)))
                (v.known j))
            tt;
      fresh = λ m k. set_other s.owner l none m (λ q. omega (arith, q)) ∙ v.fresh m k;
      entry = popped c;
    }

moves-Inv : (ms : List Move) (s : Locks) → Inv s → Inv (moves ms s)
unfolding moves
moves-Inv [] s v = v
moves-Inv (arrives i c ∷ ms) s v = moves-Inv ms _ (arrive-Inv i c s v)
moves-Inv (enters i ∷ ms) s v = moves-Inv ms _ (enter-Inv i s v)
moves-Inv (leaves i ∷ ms) s v = moves-Inv ms _ (leave-Inv i s v)

new-Inv : Inv new
new-Inv = record { known = λ i. tt; fresh = λ l h. refl; entry = λ l h. cc }

-- ── Without a `close_connection` ──

-- An operation that begins is no `close_connection`.
abbrev pub IsKeeping : Move → Type 0
IsKeeping (arrives i c) = c ≡ false
IsKeeping m = Unit

Shared-some : (n : ℕ) (p : Phase) → Shared none p → Shared (some n) p
Shared-some n outside h = tt
Shared-some n (waiting l c) h = absurd (cc h.0)
Shared-some n (inside l c) h = absurd (cc h.0)

arrive-AllShared :
    (i : ℕ) (c : Bool) (s : Locks) → c ≡ false → AllShared s → AllShared (arrive i c s)
unfolding arrive get_lock
arrive-AllShared i c s q v = go (s.phase i)
  where
    queue :
        (o : Option ℕ)
        → ((j : ℕ) → Shared o (s.phase j))
        → s.current ≡ o
        → AllShared (queued i c (created s o))
    queue none w e =
        set_all (λ j. Shared (some s.next_lock)) s.phase i (waiting s.next_lock c)
          (λ j h. Shared-some s.next_lock (s.phase j) (w j)) (refl, q)
    queue (some l) w e = set_all (λ j. Shared s.current) s.phase i (waiting l c) (λ j h. v j) (e, q)

    go : (p : Phase) → AllShared (arrive_from p i c s)
    go outside = queue s.current v refl
    go (waiting l d) = v
    go (inside l d) = v

enter-AllShared : (i : ℕ) (s : Locks) → AllShared s → AllShared (enter i s)
unfolding enter
enter-AllShared i s v = go (s.phase i) (v i)
  where
    take :
        (l : ℕ) (c : Bool) (o : Option ℕ)
        → Shared s.current (inside l c)
        → AllShared (taken_by o i l c s)
    take l c (some j) h = v
    take l c none h = set_all (λ j. Shared s.current) s.phase i (inside l c) (λ j q. v j) h

    go : (p : Phase) → Shared s.current p → AllShared (enter_from p i s)
    go outside h = v
    go (waiting l c) h = take l c (s.owner l) h
    go (inside l c) h = v

leave-AllShared : (i : ℕ) (s : Locks) → AllShared s → AllShared (leave i s)
unfolding leave
leave-AllShared i s v = go (s.phase i) (v i)
  where
    go : (p : Phase) → Shared s.current p → AllShared (leave_from p i s)
    go outside h = v
    go (waiting l c) h = v
    go (inside l true) h = absurd (cc h.1)
    go (inside l false) h = set_all (λ j. Shared s.current) s.phase i outside (λ j q. v j) tt

moves-AllShared :
    (ms : List Move) (s : Locks) → All IsKeeping ms → AllShared s → AllShared (moves ms s)
unfolding moves
moves-AllShared [] s k v = v
moves-AllShared (arrives i c ∷ ms) s k v = moves-AllShared ms _ k.1 (arrive-AllShared i c s k.0 v)
moves-AllShared (enters i ∷ ms) s k v = moves-AllShared ms _ k.1 (enter-AllShared i s v)
moves-AllShared (leaves i ∷ ms) s k v = moves-AllShared ms _ k.1 (leave-AllShared i s v)

-- Where no `close_connection` takes part, the operations of one user exclude each other: at any
-- time, in any interleaving, at most one is inside.
pub moves-exclude :
    (ms : List Move) (i j l m : ℕ) (c d : Bool)
    → All IsKeeping ms
    → (moves ms new).phase i ≡ inside l c
    → (moves ms new).phase j ≡ inside m d
    → i ≡ j
moves-exclude ms i j l m c d k p q =
    let v = moves-Inv ms new new-Inv in
    let w = moves-AllShared ms new k (λ x. tt) in
    some-inj (
      sym (rw p at (v.known i)).1
      ∙ ap (moves ms new).owner (some-inj (sym (rw p at (w i)).0 ∙ (rw q at (w j)).0))
      ∙ (rw q at (v.known j)).1)

-- ── A `close_connection` with others waiting ──
