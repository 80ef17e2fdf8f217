-- ===== src/Config/Var/Changes.antt =====
-- What `setValue` and `fromString` do to the value, and in which order the listeners hear of it.
use simple_http_server.Base.{
  ℕ, ◌≡◌, refl, ◌∙◌, ap, true, false, List, [], ◌∷◌, ◌++◌, none, some, Bool-cases, inl, inr,
}
use simple_http_server.Base.Bytes.{Bytes}
use simple_http_server.Config.Var.{
  done, threw, Setting, Callback, ConfigVar, notify, assign_value, set_value, caught, from_string,
  to_string,
}

module _ {T W : Type 0} where
  -- The world after the callbacks of a list have all returned, one after the other.
  pub data Heard (old new : T) : List (ℕ × Callback T W) → W → W → Type 0 where
    none_left : {w : W} → Heard old new [] w w
    one_more :
        {key : ℕ} {cb : Callback T W} {rest : List (ℕ × Callback T W)} {w w' w'' : W}
        → cb old new w ≡ done w'
        → Heard old new rest w' w''
        → Heard old new ((key, cb) ∷ rest) w w''

  notify-Heard :
      {old new : T} {cbs : List (ℕ × Callback T W)} {w w' : W}
      → Heard old new cbs w w'
      → (rest : List (ℕ × Callback T W)) → notify (cbs ++ rest) old new w ≡ notify rest old new w'
  unfolding notify
  notify-Heard none_left rest = refl
  notify-Heard (one_more e h) rest = rw (e, notify) (notify-Heard h rest)

  notify_all :
      {old new : T} {cbs : List (ℕ × Callback T W)} {w w' : W}
      → Heard old new cbs w w'
      → notify cbs old new w ≡ done w'
  unfolding notify
  notify_all none_left = refl
  notify_all (one_more e h) = rw (e, notify) (notify_all h)

  -- If the value differs and every listener returns, `setValue` calls each listener once, in key
  -- order, with the old and the new value, and then sets the value.
  pub set_value-Heard :
      (s : Setting T W) (v : ConfigVar T W) (new : T) (w w' : W)
      → s.same_value v.value new ≡ false
      → Heard v.value new v.listeners w w'
      → set_value s v new w ≡ (record v { value = new }, done w')
  unfolding set_value
  set_value-Heard s v new w w' differs h =
      rw differs (unfold assign_value in ap (assign_value v new) (notify_all h))

  notify_throws :
      {old new : T} {w w' : W} (key : ℕ) (cb : Callback T W) (rest : List (ℕ × Callback T W))
      → cb old new w ≡ threw w'
      → notify ((key, cb) ∷ rest) old new w ≡ threw w'
  unfolding notify
  notify_throws key cb rest e = rw (e, notify)

  -- If a text converts to a different value and a listener throws, the listeners before it have
  -- been called and those behind it have not, the value stays as it was, the error is reported and
  -- `fromString` returns false.
  pub from_string_throws :
      (s : Setting T W) (v : ConfigVar T W) (text : Bytes) (new : T) (key : ℕ) (cb : Callback T W)
      (first rest : List (ℕ × Callback T W)) (w w' w'' : W)
      → v.listeners ≡ first ++ (key, cb) ∷ rest
      → s.from_text text ≡ some new
      → s.same_value v.value new ≡ false
      → Heard v.value new first w w'
      → cb v.value new w' ≡ threw w''
      → from_string s v text w ≡ (v, s.report v.name text w'', false)
  unfolding from_string set_value
  from_string_throws s v text new key cb first rest w w' w'' listed parsed differs h thrown =
      rw (parsed, from_string)
        (rw differs (
          unfold assign_value caught in
          ap (λ o. caught s text (assign_value v new o))
            (ap (λ l. notify l v.value new w) listed
              ∙ notify-Heard h ((key, cb) ∷ rest)
              ∙ notify_throws key cb rest thrown)))

  -- A text that does not convert changes nothing, and calls no listener.
  pub from_string_refused :
      (s : Setting T W) (v : ConfigVar T W) (text : Bytes) (w : W)
      → s.from_text text ≡ none
      → from_string s v text w ≡ (v, s.report v.name text w, false)
  unfolding from_string
  from_string_refused s v text w e = rw (e, from_string)

  -- The text of a variable, read into another of its type, makes their values equal, if the
  -- conversions invert each other and no listener throws.
  pub value-from_string-to_string :
      (s : Setting T W) (u v : ConfigVar T W) (text : Bytes) (w w' : W)
      → ((a : T) (t : Bytes) → s.to_text a ≡ some t → s.from_text t ≡ some a)
      → ((a b : T) → s.same_value a b ≡ true → a ≡ b)
      → s.to_text u.value ≡ some text
      → Heard v.value u.value v.listeners w w'
      → let r = from_string s v (to_string s u w).0 w in (r.0.value ≡ u.value) × (r.2 ≡ true)
  unfolding from_string to_string set_value
  value-from_string-to_string s u v text w w' inverse exact printed h =
      rw (printed, to_string)
        (rw (inverse u.value text printed, from_string)
          (elim (Bool-cases (s.same_value v.value u.value)) [
            | inl equal ↦ rw equal (unfold caught in (exact v.value u.value equal, refl))
            | inr differs ↦
                rw (set_value-Heard s v u.value w w' differs h) (unfold caught in (refl, refl))
          ]))
