-- ===== src/Binding/Requests.antt =====
-- Any sequence of the requests of src/modules/binding, at whatever times and from whatever users.
use app_tu_phuc_vu.Prelude.{ℕ, ◌≡◌, Bool, Option, Bool-cases, inl, inr, List, [], ◌∷◌, arith}
use app_tu_phuc_vu.Prelude.Text.{Text}
use app_tu_phuc_vu.Binding.Tables.Upsert.{IsUnique, upsert_verified-IsUnique}
use app_tu_phuc_vu.Binding.Env.{Env, World, CreateCustomerRequest}
use app_tu_phuc_vu.Binding.Flow.{BindBody, Caller, cache_set, write_audit, remote_resolve}
use app_tu_phuc_vu.Binding.Service.{init_phone, bind_init, bind}
use app_tu_phuc_vu.Binding.Service.Success.{bind-IsEarned}
use app_tu_phuc_vu.Binding.Service.Refusals.{is_bound, is_bound_lem, refused-keeps_rows}
use app_tu_phuc_vu.Binding.Register.{bind_register}
use app_tu_phuc_vu.Binding.Register.Outcomes.{bind_register-IsRegistered, register_failed-keeps}
use app_tu_phuc_vu.Binding.Guard.{resolve_binding, can_activate}

pub data Request : Type 0 where
  asks_init : Caller → Request
  asks_bind : Caller → BindBody → Request
  asks_register : Caller → CreateCustomerRequest → Request
  asks_route : Option Text → Bool → Request

module _ (e : Env) where
  -- The world after a request at the time `now`.
  unfoldable pub serve : ℕ → Request → World e → World e
  serve now (asks_init who) w = (bind_init e now who w).1
  serve now (asks_bind who body) w = (bind e now who body w).1
  serve now (asks_register who profile) w = (bind_register e now who profile w).1
  serve now (asks_route user skip) w = (can_activate e now user skip w).1

  unfoldable pub serve_all : List (ℕ × Request) → World e → World e
  serve_all [] w = w
  serve_all ((now, q) ∷ qs) w = serve_all qs (serve now q w)

  bind_init-rows :
      (now : ℕ) (who : Caller) (w : World e) → (bind_init e now who w).1.bindings ≡ w.bindings
  unfolding bind_init init_phone remote_resolve write_audit cache_set
  bind_init-rows now who w = ground arith

  guard-rows :
      (now : ℕ) (user : Option Text) (skip : Bool) (w : World e)
      → (can_activate e now user skip w).1.bindings ≡ w.bindings
  unfolding can_activate resolve_binding
  guard-rows now user skip w = ground arith

  bind-IsUnique :
      (now : ℕ) (who : Caller) (body : BindBody) (w : World e)
      → IsUnique w.bindings
      → IsUnique (bind e now who body w).1.bindings
  bind-IsUnique now who body w unique =
      let run = bind e now who body w in
      elim (Bool-cases (is_bound run.0)) [
        | inl bound ↦
            let (b, same, said) = is_bound_lem run bound in
            let earned = bind-IsEarned e now who body w b run.1 same said in
            rw earned.accepted.row (upsert_verified-IsUnique _ _ w.bindings unique)
        | inr refused ↦ rw (refused-keeps_rows e now who body w refused) unique
      ]

  bind_register-IsUnique :
      (now : ℕ) (who : Caller) (profile : CreateCustomerRequest) (w : World e)
      → IsUnique w.bindings
      → IsUnique (bind_register e now who profile w).1.bindings
  bind_register-IsUnique now who profile w unique =
      let run = bind_register e now who profile w in
      elim (Bool-cases (is_bound run.0)) [
        | inl bound ↦
            let (b, same, said) = is_bound_lem run bound in
            let registered = bind_register-IsRegistered e now who profile w b run.1 same in
            rw registered.row (upsert_verified-IsUnique _ _ w.bindings unique)
        | inr refused ↦ rw (register_failed-keeps e now who profile w refused).0 unique
      ]

  serve-IsUnique :
      (now : ℕ) (q : Request) (w : World e)
      → IsUnique w.bindings
      → IsUnique (serve now q w).bindings
  unfolding serve
  serve-IsUnique now (asks_init who) w unique = rw (bind_init-rows now who w) unique
  serve-IsUnique now (asks_bind who body) w unique = bind-IsUnique now who body w unique
  serve-IsUnique now (asks_register who profile) w unique =
      bind_register-IsUnique now who profile w unique
  serve-IsUnique now (asks_route user skip) w unique = rw (guard-rows now user skip w) unique

  -- Whatever requests come, in whatever order and at whatever times, a table with at most one row
  -- per user and reference stays one.
  pub serve_all-IsUnique :
      (qs : List (ℕ × Request)) (w : World e)
      → IsUnique w.bindings
      → IsUnique (serve_all qs w).bindings
  unfolding serve_all
  serve_all-IsUnique [] w unique = unique
  serve_all-IsUnique ((now, q) ∷ qs) w unique =
      serve_all-IsUnique qs (serve now q w) (serve-IsUnique now q w unique)
