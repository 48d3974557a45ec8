-- ===== src/Module/Load.antt =====
-- Loading the module, unloading it, and what a failure leaves behind.
use mpolsr_testbed.Common.{
  ℕ, zero, suc, ◌<◌, ◌≡◌, true, false, [], ◌∷◌, ◌==◌, if◌then◌else◌, remove, arith,
}
use mpolsr_testbed.Tc.{Topology}
use mpolsr_testbed.Tc.Nodes.{free_data, init_data}
use mpolsr_testbed.Module.{
  cleanup_hooks, exit_module, init_module, Kernel, nb_hooks, Answers, Params, register_hooks,
  start_hooks, unregister_hooks,
}

abbrev pub clean : Kernel
clean = record { hooks = []; device = false }

-- If loading succeeds, the hooks and the device are registered as the parameters say, and unloading
-- then leaves nothing registered and a store that is freed.
pub exit_module-init_module :
    (params : Params) (answers : Answers) (s : Topology)
    → (init_module params answers clean s).2 ≡ true
    → ((init_module params answers clean s).0 ≡ record {
      hooks = if params.act_hook then 2 ∷ 1 ∷ 0 ∷ [] else [];
      device = params.act_device;
    })
      × ((init_module params answers clean s).1 ≡ init_data s)
      × (exit_module params
            (init_module params answers clean s).0
            (init_module params answers clean s).1
          ≡ (clean, free_data (init_data s)))
unfolding init_module start_hooks register_hooks exit_module unregister_hooks remove
exit_module-init_module params answers s h = ground arith

-- If the hooks are asked for, all is well up to them, and the call for the hook with index `i` is the first
-- to fail: loading fails, the store is initialised, the hooks behind the first are taken back, but the
-- device stays registered if it was asked for, and so does the first hook if it was registered.
pub init_module_failure :
    (params : Params) (answers : Answers) (s : Topology) (i : ℕ)
    → params.act_hook ≡ true
    → answers.data_ready ≡ true
    → answers.device ≡ true
    → i < nb_hooks
    → ((j : ℕ) → j < i → answers.hook j ≡ true)
    → answers.hook i ≡ false
    → init_module params answers clean s ≡ (
      record { hooks = if 0 == i then [] else 0 ∷ []; device = params.act_device },
      init_data s,
      false,
    )
unfolding init_module start_hooks register_hooks cleanup_hooks remove
init_module_failure params answers s zero act ready device bound before fails = ground arith
init_module_failure params answers s (suc zero) act ready device bound before fails =
    ground (arith, before 0 (omega arith))
init_module_failure params answers s (suc (suc zero)) act ready device bound before fails =
    ground (arith, before 0 (omega arith), before 1 (omega arith))
init_module_failure params answers s (suc (suc (suc i))) act ready device bound before fails =
    absurd (omega arith)
