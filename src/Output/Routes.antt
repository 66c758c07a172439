-- ===== src/Output/Routes.antt =====
-- internal/output/router.go: the executors of the equipment. An executor answers a command at a count
-- of calls, as the service's `Env` has it; an absent one is `none`.
use aqua_os.Common.{
  ℕ, String, Option, none, some, Result, ok, err, Check, executor_required, executor_exists, ◌≡◌,
  if◌then◌else◌, ◌==◌, string_eq, arith, false,
}
use aqua_os.Common.Map.{Map, lookup, insert, lookup-insert}
use aqua_os.Domain.Ids.{validate_uuid}
use aqua_os.Output.Command.{Command, Acknowledgement}

abbrev pub Executor : Type 0
Executor = ℕ → Command → Result Acknowledgement

abbrev pub Routes : Type 0
Routes = Map String Executor

-- `RejectingExecutor`.
unfoldable pub rejecting : Executor
rejecting n c =
    ok (record { accepted = false; reason = "adapter.not_configured"; acknowledged_at = 0 })

unfoldable pub add_route : Routes → String → Executor → Option Executor → Routes × Check
add_route routes id e (some old) = (routes, err executor_exists)
add_route routes id e none = (insert id e routes, ok tt)

unfoldable pub check_executor : Routes → String → Option Executor → Routes × Check
check_executor routes id none = (routes, err executor_required)
check_executor routes id (some e) = add_route routes id e (lookup id routes)

unfoldable pub register_valid : Routes → String → Option Executor → Check → Routes × Check
register_valid routes id e (err x) = (routes, err x)
register_valid routes id e (ok _) = check_executor routes id e

-- `Register`.
unfoldable pub register : Routes → String → Option Executor → Routes × Check
register routes id e = register_valid routes id e (validate_uuid id)

abbrev or_rejecting : Option Executor → Executor
or_rejecting none = rejecting
or_rejecting (some e) = e

-- `Dispatch`.
unfoldable pub dispatch : Routes → Executor
dispatch routes n c = or_rejecting (lookup c.equipment_id routes) n c

add_route-dispatch :
    (routes : Routes) (id : String) (e : Executor) (o : Option Executor) (n : ℕ) (c : Command)
    → (add_route routes id e o).1 ≡ ok tt
    → dispatch (add_route routes id e o).0 n c
      ≡ (if id == c.equipment_id then e n c else dispatch routes n c)
unfolding add_route dispatch
add_route-dispatch routes id e (some old) n c h = cc
add_route-dispatch routes id e none n c h =
    rw (lookup-insert id c.equipment_id e routes) (ground arith)

check_executor-dispatch :
    (routes : Routes) (id : String) (e : Executor) (n : ℕ) (c : Command) (valid : Check)
    → (register_valid routes id (some e) valid).1 ≡ ok tt
    → dispatch (register_valid routes id (some e) valid).0 n c
      ≡ (if id == c.equipment_id then e n c else dispatch routes n c)
unfolding register_valid check_executor
check_executor-dispatch routes id e n c (err x) h = cc
check_executor-dispatch routes id e n c (ok u) h =
    add_route-dispatch routes id e (lookup id routes) n c h

-- A registration that succeeds sends the commands of its equipment to the executor, and leaves every
-- other command where it went.
pub dispatch-register :
    (routes : Routes) (id : String) (e : Executor) (n : ℕ) (c : Command)
    → (register routes id (some e)).1 ≡ ok tt
    → dispatch (register routes id (some e)).0 n c
      ≡ (if id == c.equipment_id then e n c else dispatch routes n c)
unfolding register
dispatch-register routes id e n c h = check_executor-dispatch routes id e n c (validate_uuid id) h
