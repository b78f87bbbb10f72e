-- ===== src/Service/Latest/Steps.antt =====
-- Every step keeps what is known of the object.
use mathlib.Core.Path.{subst}
use event_pipeline_extension.Prelude.{
  ℕ, String, ◌≡◌, refl, sym, inl, inr, Bool, true, false, Option, some, List, ◌∷◌, string_eq,
}
use event_pipeline_extension.EventId.{Codec}
use event_pipeline_extension.Store.History.{done, perform}
use event_pipeline_extension.Processor.{Minio, XmlCodec, IsLawful, IsAtomic, object_key}
use event_pipeline_extension.Pool.{Key, WorkerPool, finish, route}
use event_pipeline_extension.Consumer.{Message}
use event_pipeline_extension.Service.{
  Service, untouched, failed, put, noted, Step, threads, rejects, puts, put_raises, notes, returns,
  raises, replays,
}
use event_pipeline_extension.Service.Calm.{Step-IsCalm}
use event_pipeline_extension.Service.Kept.{finish-message}
use event_pipeline_extension.Service.Latest.{
  IsWriting, IsSparing, Latest, Wrote, Spared, Mine, object_in,
}
use event_pipeline_extension.Service.Latest.Puts.{
  Known, Routed, Mine-progress, Other-progress, put-Known, put_raised-Known,
}
use event_pipeline_extension.Service.Latest.Keeps.{Mine-map, Other-map, progress-Inv, ended-Inv}

module _ (codec : Codec) (xml : XmlCodec) (minio : Minio) (bucket name : String)
    (lawful : IsLawful minio) (atomic : IsAtomic minio) (n : ℕ) (k : Key) where
  -- The message that a worker had in hand is the one that it finishes.
  module _ (s : Service minio) (j : ℕ) (m : Message) {pool : WorkerPool Message}
      (e : finish j s.system.pool ≡ some (m, pool)) where
    written :
        (o : Option (List ℕ)) (success : Bool)
        → j ≡ route n k
        → Wrote codec xml minio bucket name (s.system.pool.threads (route n k)) o
        → Latest codec xml minio bucket name ((m, success) ∷ s.system.finished) o
    written o success here w =
        let same : w.message ≡ m =
          finish-message codec xml minio bucket j m w.message s.system.pool e (rw here w.busy) in
        inl (
          w.body,
          subst (λ x. IsWriting codec xml minio bucket name x w.body) same w.writing,
          w.holds,
        )

    IsSparing-finish :
        (i : ℕ)
        → j ≡ i
        → Spared codec xml minio bucket name (s.system.pool.threads i)
        → IsSparing codec xml minio bucket name m
    IsSparing-finish i here v =
        subst (λ x. IsSparing codec xml minio bucket name x)
          (finish-message codec xml minio bucket j m v.message s.system.pool e (rw here v.busy))
          v.sparing

    returned :
        (id : String)
        → s.progress j ≡ noted id
        → Known codec xml minio bucket name lawful atomic n k s
        → j ≡ route n k
        → Latest codec xml minio bucket name
            ((m, true) ∷ s.system.finished)
            (object_in codec xml minio bucket name s.objects)
    returned id at v here =
        elim (Mine-progress codec xml minio bucket name lawful atomic n k s j (noted id) at v
          here) [
            | inl w ↦ written _ true here w
            | inr (sp, older) ↦ inr (λ h. IsSparing-finish (route n k) here sp, older)
          ]

    raised :
        s.progress j ≡ failed
        → Known codec xml minio bucket name lawful atomic n k s
        → j ≡ route n k
        → Latest codec xml minio bucket name
            ((m, false) ∷ s.system.finished)
            (object_in codec xml minio bucket name s.objects)
    raised at v here =
        elim (Mine-progress codec xml minio bucket name lawful atomic n k s j failed at v here) [
          | inl w ↦ written _ false here w
          | inr older ↦ inr (λ h. cc, older)
        ]

  pub Step-Known :
      {s t : Service minio}
      → Step codec xml minio bucket s t
      → Routed codec xml minio bucket name lawful atomic n k s
      → Known codec xml minio bucket name lawful atomic n k s
      → Known codec xml minio bucket name lawful atomic n k t
  unfolding Known
  Step-Known {s} (threads {t} st a) routes v =
      let c = Step-IsCalm codec st a in
      record {
        mine =
            subst
              (λ l.
                Mine codec xml minio bucket name (t.pool.threads (route n k))
                  (s.progress (route n k)) l (object_in codec xml minio bucket name s.objects))
              (sym c.finished)
              (Mine-map codec xml minio bucket name (s.system.pool.threads (route n k))
                (t.pool.threads (route n k)) (s.progress (route n k)) s.system.finished
                s.system.finished _ (c.busy (route n k)) (λ h. h) v.mine);
        others = λ j apart.
            Other-map codec xml minio bucket name (s.system.pool.threads j) (t.pool.threads j)
              (s.progress j) (c.busy j) (v.others j apart);
      }
  Step-Known {s} (rejects j m generated ex busy at e) routes v =
      progress-Inv codec xml minio bucket name (route n k) j failed s.objects s.system.store s
        (λ here.
          inr (Mine-progress codec xml minio bucket name lawful atomic n k s j untouched at v here))
        (λ away. v.mine) (λ away. tt) v
  Step-Known {s} (puts j m generated id body {objects} busy at made e) routes v =
      put-Known codec xml minio bucket name lawful atomic n k s j m generated id body objects busy
        at made e routes v
  Step-Known {s} (put_raises j m generated id body ex {objects} busy at made e) routes v =
      put_raised-Known codec xml minio bucket name lawful atomic n k s j m generated id body ex
        objects busy at made e routes v
  Step-Known {s} (notes j id now at) routes v =
      progress-Inv codec xml minio bucket name (route n k) j (noted id) s.objects
        (perform (done id (object_key id) now) s.system.store) s
        (Mine-progress codec xml minio bucket name lawful atomic n k s j (put id) at v)
        (λ away. v.mine)
        (Other-progress codec xml minio bucket name lawful atomic n k s j (put id) at v) v
  Step-Known {s} (returns j m id {pool} lt e at) routes v =
      ended-Inv codec xml minio bucket name lawful (route n k) j m true pool s e
        (returned s j m e id at v)
        (λ away h.
          IsSparing-finish s j m e j refl
            (Other-progress codec xml minio bucket name lawful atomic n k s j (noted id) at v away))
        v
  Step-Known {s} (raises j m {pool} lt e at) routes v =
      ended-Inv codec xml minio bucket name lawful (route n k) j m false pool s e
        (raised s j m e at v) (λ away h. cc) v
  Step-Known {s} (replays id) routes v = record { mine = v.mine; others = v.others }
