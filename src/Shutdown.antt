-- ===== src/Shutdown.antt =====
-- main.py: the exit code that `main` computes when the HTTP server has returned.
use event_pipeline_extension.Prelude.{
  ℕ, ◌≡◌, ◌↔◌, Bool, true, false, not, Option, none, some, arith, ltb, nat_beq, if◌then◌else◌,
}

-- What the phases of the teardown come to: the server raised, the consumer thread is alive after the
-- join, the consumer's exit code, `pool.shutdown`, and the messages left by `flush` (`none` if it
-- raised).
pub record Teardown : Type 0 where
  pub server_crashed : Bool
  pub consumer_alive : Bool
  pub consumer_exit : ℕ
  pub pool_stopped : Bool
  pub flushed : Option ℕ

-- Each phase keeps the exit code or sets it.
abbrev pub after_server : Bool → ℕ
after_server server_crashed = if server_crashed then 1 else 0

abbrev pub after_join : Bool → ℕ → ℕ
after_join consumer_alive exit_code = if consumer_alive then 1 else exit_code

abbrev pub after_consumer : ℕ → ℕ → ℕ
after_consumer consumer_exit exit_code =
    if not (nat_beq consumer_exit 0) then consumer_exit else exit_code

abbrev pub after_pool : Bool → ℕ → ℕ
after_pool pool_stopped exit_code = if not pool_stopped then 1 else exit_code

abbrev pub after_flush : Option ℕ → ℕ → ℕ
after_flush none exit_code = 1
after_flush (some remaining) exit_code = if ltb 0 remaining then 1 else exit_code

unfoldable pub exit_code : Teardown → ℕ
exit_code t = after_flush t.flushed (
    after_pool t.pool_stopped (
      after_consumer t.consumer_exit (after_join t.consumer_alive (after_server t.server_crashed))))

-- The process exits with 0 exactly if every phase went well: the server returned, the consumer thread
-- ended in time with exit code 0, the pool stopped, and the producer flushed all its messages.
pub exit_code-eq-zero :
    (t : Teardown)
    → (exit_code t ≡ 0) ↔ (record {
      served : t.server_crashed ≡ false;
      joined : t.consumer_alive ≡ false;
      consumed : t.consumer_exit ≡ 0;
      stopped : t.pool_stopped ≡ true;
      flushed : t.flushed ≡ some 0;
    })
unfolding exit_code
exit_code-eq-zero t = ground arith
