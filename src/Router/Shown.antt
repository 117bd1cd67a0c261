-- ===== src/Router/Shown.antt =====
-- What the platform is asked to show of an answer.
use claw_mux.Base.{
  ℕ, suc, ◌≡◌, refl, ap, ◌∙◌, Bool, ◌&&◌, Option, codes, false, none, some, List, [], ◌∷◌, ◌==◌,
  text_key, Bool-cases, inl, inr, if◌then◌else◌, list_eq, list_eq_refl, Text, is_empty, count_if,
  Result, ok, err,
}
use claw_mux.Base.Exec.{proceed, pure, ◌>>◌}
use claw_mux.Router.World.{
  Effect, reply, update, post_files, default_provider, Env, World, ChannelEvent, Run, note, count,
}
use claw_mux.Router.Event.{
  deliver, deliver_files, post_with_files, upload_one, upload_all, upload_for, add_uploaded,
}
use claw_mux.Router.Keeps.{Keeps, Keeps-pure, Keeps-if, Keeps-bind}
use claw_mux.Instance.{InstanceInfo}
use claw_mux.Files.Paths.{extract_uuid_from_instance_url}

-- The effect shows this text.
abbrev pub shows : Text → Effect → Bool
shows t (reply a c text r) = text == t
shows t (update a p text c) = text == t
shows t (post_files a c message fs r) = message == t
shows t e = false

said :
    (r : Result Text Text) (t : Text) (v : World)
    → count_if (shows t) (proceed r (λ x. pure {E = Text} tt) v).1.log ≡ count_if (shows t) v.log
said (ok x) t v = refl
said (err e) t v = refl

files_silent :
    (env : Env) (ev : ChannelEvent) (a : ℕ) (t : Text) (fs : List Text)
    → is_empty t ≡ false
    → (r : Result Text (Unit {0})) (v : World)
    → count_if (shows t) (proceed r (λ x. post_with_files env ev a [] fs) v).1.log
      ≡ count_if (shows t) v.log
unfolding list_eq
files_silent env ev a [] fs n r v = cc
files_silent env ev a (c ∷ t) fs n (ok x) v = refl
files_silent env ev a (c ∷ t) fs n (err e) v = refl

deliver_files_once :
    (env : Env) (ev : ChannelEvent) (a : ℕ) (post response : Text) (files : List Text) (w : World)
    → is_empty response ≡ false
    → count_if (shows response) (deliver_files env ev a post response files w).1.log
      ≡ suc (count_if (shows response) w.log)
deliver_files_once env ev a post response [] w n = elim (Bool-cases (is_empty post)) [
  | inl e ↦ rw e (
      said (env.send_reply (reply a ev.channel_id response ev.root_id ∷ w.log)) response
        (record w { log = reply a ev.channel_id response ev.root_id ∷ w.log })
      ∙ rw (list_eq_refl response) refl)
  | inr e ↦ rw (e, list_eq_refl response) refl
]
deliver_files_once env ev a post response (f ∷ fs) w n = elim (Bool-cases (is_empty post)) [
  | inl e ↦ rw (e, list_eq_refl response) refl
  | inr e ↦
      let edited =
        update a post response
          (if ev.provider == default_provider then none else some ev.channel_id) in
      rw e (
        files_silent env ev a response (f ∷ fs) n (env.update_reply (edited ∷ w.log))
          (record w { log = edited ∷ w.log })
        ∙ rw (list_eq_refl response) refl)
]

-- ── The uploads before it ──

module _ (env : Env) (ev : ChannelEvent) (a : ℕ) (t : Text) where
  abbrev IsSilent : {A : Type 0} → Run A → Type 0
  IsSilent m = Keeps (λ w. count_if (shows t) w.log) m

  upload_one-Silent : (path : Text) → IsSilent (upload_one env ev a path)
  upload_one-Silent path = Keeps-if (is_empty path) (Keeps-pure none) (
      Keeps-if (ev.provider == default_provider && env.has_files) (record { run = λ w. refl })
        (Keeps-pure (some path)))

  upload_all-Silent :
      (uuid : Text) (paths ids : List Text) → IsSilent (upload_all env ev a uuid paths ids)
  unfolding upload_all
  upload_all-Silent uuid [] ids = Keeps-pure ids
  upload_all-Silent uuid (p ∷ ps) ids =
      Keeps-bind _ _ (upload_one-Silent _)
        λ f. upload_all-Silent uuid ps (add_uploaded env ev a ids f)

  upload_for-Silent :
      (uuid : Option Text) (paths : List Text) → IsSilent (upload_for env ev a uuid paths)
  upload_for-Silent none paths = Keeps-pure []
  upload_for-Silent (some uuid) paths = upload_all-Silent uuid paths []

-- One more, unless the upload raised.
abbrev pub after_upload : Result Text (List Text) → ℕ → ℕ
after_upload (ok files) n = suc n
after_upload (err e) n = n

delivered_of :
    (env : Env) (ev : ChannelEvent) (a : ℕ) (post response : Text) (w : World)
    (r : Result Text (List Text))
    → is_empty response ≡ false
    → count_if
        (shows response)
        (proceed r
          (λ files. deliver_files env ev a post response files >> note (count (codes "success")))
          w).1.log
      ≡ after_upload r (count_if (shows response) w.log)
delivered_of env ev a post response w (err e) n = refl
delivered_of env ev a post response w (ok files) n =
    go (deliver_files env ev a post response files w).0
      (deliver_files env ev a post response files w).1
    ∙ deliver_files_once env ev a post response files w n
  where
    go :
        (r : Result Text (Unit {0})) (v : World)
        → count_if (shows response) (proceed r (λ x. note (count (codes "success"))) v).1.log
          ≡ count_if (shows response) v.log
    go (ok x) v = refl
    go (err e) v = refl

-- `deliver` hands an answer that is not empty to the platform exactly once, with files or without
-- them, in the placeholder or in a post of its own, and whether the platform takes it or fails;
-- unless the upload of a file raises, after which the answer is not handed to it at all.
pub deliver_once :
    (env : Env) (ev : ChannelEvent) (a : ℕ) (info : InstanceInfo) (post response : Text)
    (paths : List Text) (w : World)
    → is_empty response ≡ false
    → let uuid = extract_uuid_from_instance_url info.instance_url in
      count_if (shows response) (deliver env ev a info post response paths w).1.log
      ≡ after_upload (upload_for env ev a uuid paths w).0 (count_if (shows response) w.log)
unfolding deliver
deliver_once env ev a info post response paths w n =
    let uuid = extract_uuid_from_instance_url info.instance_url in
    let (r, v) = upload_for env ev a uuid paths w in
    delivered_of env ev a post response v r n
    ∙ ap (after_upload r) ((upload_for-Silent env ev a response uuid paths).run w)
