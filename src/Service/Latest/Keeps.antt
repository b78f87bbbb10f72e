-- ===== src/Service/Latest/Keeps.antt =====
-- What is known of the object, where one worker gets on.
use mathlib.Core.Path.{subst}
use event_pipeline_extension.Prelude.{
  ℕ, String, ◌≡◌, ◌≢◌, sym, ◌∙◌, ap, inl, inr, Bool, true, Option, some, List, ◌∷◌, nat_beq,
  nat_beq_iff, Bool-cases, string_eq,
}
use event_pipeline_extension.Prelude.Result.{Result}
use event_pipeline_extension.Errors.{Exception}
use event_pipeline_extension.EventId.{Codec}
use event_pipeline_extension.Store.{EventStore}
use event_pipeline_extension.Processor.{Minio, XmlCodec, IsLawful}
use event_pipeline_extension.Pool.{Key, WorkerPool, Thread, working, update, finish}
use event_pipeline_extension.Pool.Drain.{finish-eq}
use event_pipeline_extension.Consumer.{Message}
use event_pipeline_extension.Service.{Service, Progress, untouched, failed, put, noted, end_work}
use event_pipeline_extension.Service.Latest.{
  IsWriting, IsSparing, Latest, Wrote, Spared, Mine, Other, object_in, Inv,
}

module _ (codec : Codec) (xml : XmlCodec) (minio : Minio) (bucket name : String) where
  -- A message that can write the object has the key.
  abbrev pub HasKey : Key → Message → Type 0
  HasKey k m = (body : List ℕ) → IsWriting codec xml minio bucket name m body → m.key ≡ k

  Spared-map :
      (t t' : Thread Message)
      → ((m : Message) → t ≡ working m → t' ≡ working m)
      → Spared codec xml minio bucket name t
      → Spared codec xml minio bucket name t'
  Spared-map t t' stays v = record {
    message = v.message;
    busy = stays v.message v.busy;
    sparing = v.sparing;
  }

  Wrote-map :
      (t t' : Thread Message) (o : Option (List ℕ))
      → ((m : Message) → t ≡ working m → t' ≡ working m)
      → Wrote codec xml minio bucket name t o
      → Wrote codec xml minio bucket name t' o
  Wrote-map t t' o stays v = record {
    message = v.message;
    busy = stays v.message v.busy;
    body = v.body;
    writing = v.writing;
    holds = v.holds;
  }

  pub Mine-map :
      (t t' : Thread Message) (p : Progress) (l l' : List (Message × Bool)) (o : Option (List ℕ))
      → ((m : Message) → t ≡ working m → t' ≡ working m)
      → (Latest codec xml minio bucket name l o → Latest codec xml minio bucket name l' o)
      → Mine codec xml minio bucket name t p l o
      → Mine codec xml minio bucket name t' p l' o
  Mine-map t t' untouched l l' o stays older v = older v
  Mine-map t t' failed l l' o stays older (inl v) = inl (Wrote-map t t' o stays v)
  Mine-map t t' failed l l' o stays older (inr v) = inr (older v)
  Mine-map t t' (put id) l l' o stays older (inl v) = inl (Wrote-map t t' o stays v)
  Mine-map t t' (put id) l l' o stays older (inr v) = inr (Spared-map t t' stays v.0, older v.1)
  Mine-map t t' (noted id) l l' o stays older (inl v) = inl (Wrote-map t t' o stays v)
  Mine-map t t' (noted id) l l' o stays older (inr v) = inr (Spared-map t t' stays v.0, older v.1)

  pub Other-map :
      (t t' : Thread Message) (p : Progress)
      → ((m : Message) → t ≡ working m → t' ≡ working m)
      → Other codec xml minio bucket name t p
      → Other codec xml minio bucket name t' p
  Other-map t t' untouched stays v = tt
  Other-map t t' failed stays v = tt
  Other-map t t' (put id) stays v = Spared-map t t' stays v
  Other-map t t' (noted id) stays v = Spared-map t t' stays v

  -- One worker gets on, and the object may change.
  pub progress-Inv :
      (worker j : ℕ) (p : Progress) (objects : minio.State) (store : EventStore) (s : Service minio)
      → (j ≡ worker
          → Mine codec xml minio bucket name
              (s.system.pool.threads worker)
              p
              s.system.finished
              (object_in codec xml minio bucket name objects))
      → (j ≢ worker
          → Mine codec xml minio bucket name
              (s.system.pool.threads worker)
              (s.progress worker)
              s.system.finished
              (object_in codec xml minio bucket name objects))
      → (j ≢ worker → Other codec xml minio bucket name (s.system.pool.threads j) p)
      → Inv codec xml minio bucket name worker s
      → Inv codec xml minio bucket name worker (record s {
        objects = objects;
        system = record s.system { store = store };
        progress = update s.progress j p;
      })
  progress-Inv worker j p objects store s here away other v = record {
    mine = elim (Bool-cases (nat_beq j worker)) [
      | inl same ↦ rw same (here ((nat_beq_iff j worker).0 same))
      | inr differs ↦ rw differs (away (λ same. cc ((nat_beq_iff j worker).1 same, differs)))
    ];
    others = λ x apart. elim (Bool-cases (nat_beq j x)) [
      | inl same ↦
          let e : j ≡ x = (nat_beq_iff j x).0 same in
          rw same (
            subst (λ y. Other codec xml minio bucket name (s.system.pool.threads y) p) e
              (other (λ h. apart (sym e ∙ h))))
      | inr differs ↦ rw differs (v.others x apart)
    ];
  }

  module _ (lawful : IsLawful minio) where
    pub untouched_object :
        (r : Result Exception (Unit {0})) (s t : minio.State) (key : String) (body : List ℕ)
        → minio.put_object s bucket key body ≡ (r, t)
        → key ≢ name
        → object_in codec xml minio bucket name t ≡ object_in codec xml minio bucket name s
    untouched_object r s t key body h differs =
        ap (λ u. minio.object u.1 bucket name) (sym h)
        ∙ lawful.others s bucket key body bucket name (inr (λ same. differs (sym same)))

    -- The work of a message ends.
    pub ended-Inv :
        (worker j : ℕ) (m : Message) (success : Bool) (pool : WorkerPool Message)
        (s : Service minio)
        → finish j s.system.pool ≡ some (m, pool)
        → (j ≡ worker
            → Latest codec xml minio bucket name
                ((m, success) ∷ s.system.finished)
                (object_in codec xml minio bucket name s.objects))
        → (j ≢ worker → success ≡ true → IsSparing codec xml minio bucket name m)
        → Inv codec xml minio bucket name worker s
        → Inv codec xml minio bucket name worker (end_work minio j m success pool s)
    ended-Inv worker j m success pool s e here away v = record {
      mine = rw (finish-eq j m s.system.pool e) (elim (Bool-cases (nat_beq j worker)) [
        | inl same ↦ rw same (here ((nat_beq_iff j worker).0 same))
        | inr differs ↦ rw differs (
            Mine-map (s.system.pool.threads worker) (s.system.pool.threads worker)
              (s.progress worker) s.system.finished ((m, success) ∷ s.system.finished) _ (λ x h. h)
              (λ older. inr (away (λ same. cc ((nat_beq_iff j worker).1 same, differs)), older))
              v.mine)
      ]);
      others = λ x apart. rw (finish-eq j m s.system.pool e) (elim (Bool-cases (nat_beq j x)) [
        | inl same ↦ rw same tt
        | inr differs ↦ rw differs (v.others x apart)
      ]);
    }
