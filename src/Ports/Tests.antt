-- ===== src/Ports/Tests.antt =====
-- Calls through the sample registry (src/libs/shared/port/port-registry.service.ts).
use app_tu_phuc_vu.Prelude.{ℕ, ◌≡◌, refl, List, ◌∷◌, true, false, none, some, [], ok, arith}
use app_tu_phuc_vu.Prelude.OrderedMap
use app_tu_phuc_vu.Prelude.Text.{codes}
use app_tu_phuc_vu.Inbound.{result}
use app_tu_phuc_vu.Resilience.Breaker.{
  CircuitBreakerOptions, CircuitBreakerState, closed, create, open_circuit,
}
use app_tu_phuc_vu.Ports.Types.{live, PortError, plain, entry, PortResult, degraded}
use app_tu_phuc_vu.Ports.Registry.{PortRegistry, resolve_config, answered, found, replayed}
use app_tu_phuc_vu.Ports.Degraded.{PortCall}
use app_tu_phuc_vu.Ports.Execute.{execute}
use app_tu_phuc_vu.Ports.Execute.Reads.{read_then_read, call_then_replay}
use app_tu_phuc_vu.Ports.Execute.Freshness.{is_cached_read, mutation_then_read}
use app_tu_phuc_vu.Ports.Execute.Idle.{execute_all, AllElsewhere}
use app_tu_phuc_vu.Ports.Execute.Stale.{degraded-eq-last}
use app_tu_phuc_vu.Ports.Execute.Probe.{AsksNothing, execute-AsksNothing, probe_decides}
use app_tu_phuc_vu.Ports.Sample.{
  digits-IsLine, env, no_overrides, profile, calls, call_of, read_7, start, port, known,
}

-- The first caller's read, answered by the adapter.
abbrev answered_1 : PortRegistry env
unfolding calls start
answered_1 = (execute env 1000 1200 read_7 start).1

answer_1 : execute env 1000 1200 read_7 start ≡ (ok (answered env live 107), answered_1)
unfolding calls start answered_1
answer_1 = refl

read_then_read_example :
    (d : ℕ) × (answered env live 107 ≡ answered env live d)
    × (execute env 600000 600100 (call_of 2 (codes "get-profile") 7 none) answered_1
        ≡ (ok (found env live (result (entry d 1200))), answered_1))
unfolding calls start
read_then_read_example =
    read_then_read env 1000 1200 600000 600100 read_7 2 port start answered_1
      (answered env live 107) known refl refl answer_1 refl (omega arith)

-- After 15 minutes the adapter is asked again.
late_test :
    (execute env 901201 901300 (call_of 2 (codes "get-profile") 7 none) answered_1).0
    ≡ ok (answered env live 207)
unfolding calls start answered_1
late_test = refl

abbrev keyed : PortCall env
keyed = call_of 1 (codes "create-customer") 7 (some (codes "m1"))

abbrev answered_2 : PortRegistry env
unfolding calls start
answered_2 = (execute env 1000 1200 keyed start).1

answer_2 : execute env 1000 1200 keyed start ≡ (ok (answered env live 107), answered_2)
unfolding calls start answered_2
answer_2 = refl

call_then_replay_example :
    (d : ℕ) × (answered env live 107 ≡ answered env live d)
    × (execute env 5000 5100 keyed answered_2
        ≡ (ok (replayed env live (result (plain d))), answered_2))
unfolding calls start
call_then_replay_example =
    call_then_replay env 1000 1200 5000 5100 keyed keyed port port start answered_2
      (answered env live 107) (codes "m1") known known refl refl refl (λ d h. refl) answer_2 refl
      (omega arith)

abbrev update_8 : PortCall env
update_8 = call_of 1 (codes "update-profile") 8 none

abbrev answered_3 : PortRegistry env
unfolding calls start
answered_3 = (execute env 2000 2200 update_8 answered_1).1

answer_3 : execute env 2000 2200 update_8 answered_1 ≡ (ok (answered env live 108), answered_3)
unfolding calls start answered_1 answered_3
answer_3 = refl

answer_4 : (execute env 3000 3100 read_7 answered_3).0 ≡ ok (answered env live 107)
unfolding calls start answered_1 answered_3
answer_4 = refl

known_1 : OrderedMap.get answered_1.ports profile ≡ some port
unfolding calls start answered_1
known_1 = refl

mutation_then_read_example : is_cached_read (answered env live 107).metadata ≡ false
unfolding calls start answered_1
mutation_then_read_example =
    mutation_then_read env 2000 2200 3000 3100 update_8 read_7 port answered_1 answered_3
      (answered env live 108) (answered env live 107) (ground arith) (ground arith) (ground arith)
      (ground arith) digits-IsLine known_1 refl answer_3 refl refl refl answer_4

-- A second caller's failing call of another method gets the first caller's data.
abbrev stale_107 : PortResult ℕ
stale_107 = record {
  answer = some (result (plain 107));
  adapter_used = live;
  from_cache = true;
  metadata = degraded 3100;
}

abbrev failing : PortCall env
failing = call_of 2 (codes "get-related-accounts") 13 none

abbrev failed_once : List (ℕ × ℕ × PortCall env)
failed_once = (2000, 2100, failing) ∷ []

stale_answer :
    (execute env 3000 3100 failing (execute_all env failed_once answered_1)).0 ≡ ok stale_107
unfolding calls start answered_1 execute_all
stale_answer = refl

failed-AllElsewhere : AllElsewhere env profile failed_once answered_1
unfolding calls start answered_1
failed-AllElsewhere =
    (λ x h asked. let cached : x.from_cache ≡ true = ground (arith, h) in absurd (ground arith), tt)

degraded-eq-last_example : stale_107.answer ≡ (answered env live 107).answer
unfolding calls start
degraded-eq-last_example =
    degraded-eq-last env 1000 1200 3000 3100 read_7 failing failed_once port start answered_1
      (answered env live 107) stale_107 [] known refl refl answer_1 refl failed-AllElsewhere refl
      stale_answer refl

abbrev breaker_options : CircuitBreakerOptions PortError
unfolding calls
breaker_options = (resolve_config env profile no_overrides).circuit_breaker

abbrev opened_at_5000 : CircuitBreakerState
opened_at_5000 = open_circuit 5000 (create 0)

abbrev shut : PortRegistry env
unfolding calls start
shut = record start { circuit_breakers = (profile, (breaker_options, opened_at_5000)) ∷ [] }

execute-AsksNothing_example : AsksNothing env read_7 shut (execute env 14999 15100 read_7 shut)
unfolding calls start shut
execute-AsksNothing_example =
    execute-AsksNothing env 14999 15100 read_7 port shut breaker_options opened_at_5000 known refl
      refl (omega arith)

probe_decides_example :
    (b : CircuitBreakerState) × (OrderedMap.get
        (execute env 15000 15100 update_8 shut).1.circuit_breakers
        profile
      ≡ some (breaker_options, b))
    × (b.state ≡ closed)
unfolding calls start shut
probe_decides_example =
    probe_decides env 15000 15100 update_8 port shut breaker_options opened_at_5000 known refl refl
      (omega arith) refl refl refl
