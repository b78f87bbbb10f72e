-- ===== src/Processor/Memory.antt =====
-- An object store in memory, which meets what the processor relies on.
use event_pipeline_extension.Prelude.{
  ℕ, String, ◌≡◌, ◌≢◌, ◌⊎◌, refl, inl, ◌&&◌, Option, none, some, List, [], ◌∷◌, arith, ◌==◌,
  string_eq, eq_law, eq_self, sym, ap, ◌∙◌, if◌then◌else◌,
}
use event_pipeline_extension.Prelude.Result.{Result, ok, raise}
use event_pipeline_extension.Errors.{Exception, other_error}
use event_pipeline_extension.Processor.{Minio, IsLawful, IsAtomic}

abbrev pub Objects : Type 0
Objects = String → String → Option (List ℕ)

-- It refuses an empty body, and holds any other.
abbrev pub write : Objects → String → String → List ℕ → Result Exception (Unit {0}) × Objects
write s bucket key [] = (raise (other_error "empty"), s)
write s bucket key (c ∷ body) =
    (ok tt, λ b k. if (bucket == b) && (key == k) then some (c ∷ body) else s b k)

abbrev pub memory : Minio
memory = record { State = Objects; put_object = write; object = λ s b k. s b k }

abbrev pub empty : Objects
empty b k = none

stored :
    (s t : Objects) (bucket key : String) (body : List ℕ)
    → write s bucket key body ≡ (ok tt, t)
    → t bucket key ≡ some body
stored s t bucket key [] h = cc
stored s t bucket key (c ∷ body) h =
    sym (ap (λ (p : Result Exception (Unit {0}) × Objects). p.1 bucket key) h)
    ∙ ground (arith, eq_self bucket, eq_self key)

others :
    (s : Objects) (bucket key : String) (body : List ℕ) (b k : String)
    → (b ≢ bucket) ⊎ (k ≢ key)
    → (write s bucket key body).1 b k ≡ s b k
others s bucket key [] b k h = refl
others s bucket key (c ∷ body) b k h = ground (arith, eq_law bucket b, eq_law key k)

whole :
    (s t : Objects) (bucket key : String) (body : List ℕ) (ex : Exception)
    → write s bucket key body ≡ (raise ex, t)
    → (t bucket key ≡ s bucket key) ⊎ (t bucket key ≡ some body)
whole s t bucket key [] ex h =
    inl (sym (ap (λ (p : Result Exception (Unit {0}) × Objects). p.1 bucket key) h))
whole s t bucket key (c ∷ body) ex h = cc

pub memory-IsLawful : IsLawful memory
memory-IsLawful = record { stored = stored; others = others }

pub memory-IsAtomic : IsAtomic memory
memory-IsAtomic = record { whole = whole }
