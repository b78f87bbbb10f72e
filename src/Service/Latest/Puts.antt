-- ===== src/Service/Latest/Puts.antt =====
-- A put keeps what is known of the object.
use mathlib.Core.Path.{subst}
use event_pipeline_extension.Prelude.{
  ℕ, String, ◌≡◌, ◌≢◌, sym, ◌∙◌, ap, inl, inr, Option, some, List, All, nat_beq_iff, Bool-cases,
  ◌==◌, string_eq, eq_law,
}
use event_pipeline_extension.Prelude.Result.{ok, raise}
use event_pipeline_extension.Errors.{Exception}
use event_pipeline_extension.EventId.{Codec}
use event_pipeline_extension.Processor.{Minio, XmlCodec, IsLawful, IsAtomic, object_key, render}
use event_pipeline_extension.Pool.{Key, working, update, route}
use event_pipeline_extension.Consumer.{Message}
use event_pipeline_extension.Service.{Service, Progress, untouched, failed, put, Reach}
use event_pipeline_extension.Service.Logs.{Reach-System}
use event_pipeline_extension.Service.Latest.{
  IsWriting, IsSparing, Wrote, Spared, Mine, Other, object_in, Inv,
}
use event_pipeline_extension.Service.Latest.Messages.{in_hand-route}
use event_pipeline_extension.Service.Latest.Keeps.{HasKey, progress-Inv, untouched_object}

module _ (codec : Codec) (xml : XmlCodec) (minio : Minio) (bucket name : String)
    (lawful : IsLawful minio) (atomic : IsAtomic minio) (n : ℕ) (k : Key) where
  abbrev pub worker : ℕ
  worker = route n k

  unfoldable pub Known : Service minio → Type 0
  Known s = Inv codec xml minio bucket name worker s

  -- A worker in `process` of a message that writes the object is the one of the key.
  abbrev pub Routed : Service minio → Type 0
  Routed s =
      (j : ℕ) (m : Message) (body : List ℕ)
      → s.system.pool.threads j ≡ working m
      → IsWriting codec xml minio bucket name m body
      → j ≡ worker

  pub routed :
      {size : ℕ} {s : Service minio}
      → Reach codec xml minio bucket n size s
      → All (HasKey codec xml minio bucket name k) s.system.polled
      → Routed s
  routed {s} r h j m body busy writing =
      let (key, mine) =
        in_hand-route (HasKey codec xml minio bucket name k) codec
          (Reach-System codec xml minio bucket r) h j m busy in
      let at : route n m.key ≡ j = (nat_beq_iff (route n m.key) j).0 mine in
      sym at ∙ ap (route n) (key body writing)

  -- The put of a message that writes the object.
  Wrote-worker :
      (s : Service minio) (j : ℕ) (m : Message) (body : List ℕ) (o : Option (List ℕ))
      → s.system.pool.threads j ≡ working m
      → IsWriting codec xml minio bucket name m body
      → o ≡ some body
      → j ≡ worker
      → Wrote codec xml minio bucket name (s.system.pool.threads worker) o
  Wrote-worker s j m body o busy writing holds here = record {
    message = m;
    busy = rw (← here) busy;
    body = body;
    writing = writing;
    holds = holds;
  }

  -- The progress of the worker of the key.
  pub Mine-progress :
      (s : Service minio) (j : ℕ) (p : Progress)
      → s.progress j ≡ p
      → Known s
      → j ≡ worker
      → Mine codec xml minio bucket name
          (s.system.pool.threads worker)
          p
          s.system.finished
          (object_in codec xml minio bucket name s.objects)
  unfolding Known
  Mine-progress s j p at v here =
      subst
        (λ p.
          Mine codec xml minio bucket name (s.system.pool.threads worker) p s.system.finished
            (object_in codec xml minio bucket name s.objects))
        (ap s.progress (sym here) ∙ at) v.mine

  pub Other-progress :
      (s : Service minio) (j : ℕ) (p : Progress)
      → s.progress j ≡ p
      → Known s
      → j ≢ worker
      → Other codec xml minio bucket name (s.system.pool.threads j) p
  unfolding Known
  Other-progress s j p at v away =
      subst (λ p. Other codec xml minio bucket name (s.system.pool.threads j) p) at
        (v.others j away)

  -- A worker gets on, after the message in hand has written the object, or may have.
  wrote-Known :
      (s : Service minio) (j : ℕ) (p : Progress) (objects : minio.State)
      → j ≡ worker
      → Mine codec xml minio bucket name
          (s.system.pool.threads worker)
          p
          s.system.finished
          (object_in codec xml minio bucket name objects)
      → Known s
      → Known (record s { objects = objects; progress = update s.progress j p })
  unfolding Known
  wrote-Known s j p objects here new v =
      progress-Inv codec xml minio bucket name worker j p objects s.system.store s (λ same. new)
        (λ away. absurd (away here)) (λ away. absurd (away here)) v

  -- A worker gets on, and the object stays.
  same-Known :
      (s : Service minio) (j : ℕ) (p : Progress) (objects : minio.State)
      → object_in codec xml minio bucket name objects
        ≡ object_in codec xml minio bucket name s.objects
      → (j ≡ worker
          → Mine codec xml minio bucket name
              (s.system.pool.threads worker)
              p
              s.system.finished
              (object_in codec xml minio bucket name s.objects))
      → (j ≢ worker → Other codec xml minio bucket name (s.system.pool.threads j) p)
      → Known s
      → Known (record s { objects = objects; progress = update s.progress j p })
  unfolding Known
  same-Known s j p objects same here away v =
      progress-Inv codec xml minio bucket name worker j p objects s.system.store s
        (λ h. rw same (here h)) (λ h. rw same v.mine) away v

  pub put-Known :
      (s : Service minio) (j : ℕ) (m : Message) (generated id : String) (body : List ℕ)
      (objects : minio.State)
      → s.system.pool.threads j ≡ working m
      → s.progress j ≡ untouched
      → render codec xml minio bucket generated m.value ≡ ok (id, body)
      → minio.put_object s.objects bucket (object_key id) body ≡ (ok tt, objects)
      → Routed s
      → Known s
      → Known (record s { objects = objects; progress = update s.progress j (put id) })
  put-Known s j m generated id body objects busy at made e routes v =
      elim (Bool-cases (object_key id == name)) [
        | inl found ↦
            let named : object_key id ≡ name = (eq_law (object_key id) name).0 found in
            let writing : IsWriting codec xml minio bucket name m body = record {
              generated = generated;
              id = id;
              made = made;
              named = named;
            } in
            let here = routes j m body busy writing in
            let stored : object_in codec xml minio bucket name objects ≡ some body =
              subst (λ x. minio.object objects bucket x ≡ some body) named
                (lawful.stored s.objects objects bucket (object_key id) body e) in
            wrote-Known s j (put id) objects here
              (inl (Wrote-worker s j m body _ busy writing stored here)) v
        | inr missed ↦
            let differs : object_key id ≢ name =
              λ same. cc ((eq_law (object_key id) name).1 same, missed) in
            let sparing : IsSparing codec xml minio bucket name m = record {
              generated = generated;
              id = id;
              body = body;
              made = made;
              named = differs;
            } in
            let spared : Spared codec xml minio bucket name (s.system.pool.threads j) = record {
              message = m;
              busy = busy;
              sparing = sparing;
            } in
            same-Known s j (put id) objects
              (untouched_object codec xml minio bucket name lawful (ok tt) s.objects objects
                (object_key id) body e differs)
              (λ here. inr (
                subst (λ i. Spared codec xml minio bucket name (s.system.pool.threads i)) here
                    spared,
                Mine-progress s j untouched at v here,
              ))
              (λ away. spared) v
      ]

  pub put_raised-Known :
      (s : Service minio) (j : ℕ) (m : Message) (generated id : String) (body : List ℕ)
      (ex : Exception) (objects : minio.State)
      → s.system.pool.threads j ≡ working m
      → s.progress j ≡ untouched
      → render codec xml minio bucket generated m.value ≡ ok (id, body)
      → minio.put_object s.objects bucket (object_key id) body ≡ (raise ex, objects)
      → Routed s
      → Known s
      → Known (record s { objects = objects; progress = update s.progress j failed })
  put_raised-Known s j m generated id body ex objects busy at made e routes v =
      elim (Bool-cases (object_key id == name)) [
        | inl found ↦
            let named : object_key id ≡ name = (eq_law (object_key id) name).0 found in
            let writing : IsWriting codec xml minio bucket name m body = record {
              generated = generated;
              id = id;
              made = made;
              named = named;
            } in
            let here = routes j m body busy writing in
            elim (atomic.whole s.objects objects bucket (object_key id) body ex e) [
              | inl kept ↦
                  same-Known s j failed objects
                    (subst (λ x. minio.object objects bucket x ≡ minio.object s.objects bucket x)
                      named kept)
                    (λ h. inr (Mine-progress s j untouched at v here)) (λ away. tt) v
              | inr new ↦
                  wrote-Known s j failed objects here
                    (inl (
                      Wrote-worker s j m body _ busy writing
                        (subst (λ x. minio.object objects bucket x ≡ some body) named new) here))
                    v
            ]
        | inr missed ↦
            same-Known s j failed objects
              (untouched_object codec xml minio bucket name lawful (raise ex) s.objects objects
                (object_key id) body e (λ same. cc ((eq_law (object_key id) name).1 same, missed)))
              (λ here. inr (Mine-progress s j untouched at v here)) (λ away. tt) v
      ]
