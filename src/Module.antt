-- ===== src/Module.antt =====
-- Loading and unloading of the kernel module: src_iptables/ser_module/sereadmo-module.c, with
-- `dev_init_device` and `dev_cleanup_device` of ser_device.c.
pub mod Load
pub mod History
pub mod Tests
use mpolsr_testbed.Common.{
  ℕ, zero, suc, ◌+◌, Bool, true, false, List, [], ◌∷◌, ◌++◌, if◌then◌else◌, remove,
}
use mpolsr_testbed.Tc.{Topology}
use mpolsr_testbed.Tc.Nodes.{free_data, init_data}

-- What the kernel knows of the module: the hooks that are registered, by their index in
-- g_ser_hook_ops, and the char device.
pub record Kernel : Type 0 where
  pub hooks : List ℕ
  pub device : Bool

-- ARRAY_SIZE(g_ser_hook_ops)
abbrev pub nb_hooks : ℕ
nb_hooks = 3

-- The parameters act_hook and act_device.
pub record Params : Type 0 where
  pub act_hook : Bool
  pub act_device : Bool

-- What the functions of the kernel return: whether the caches are created, the device is registered, and
-- the hook with an index.
pub record Answers : Type 0 where
  pub data_ready : Bool
  pub device : Bool
  pub hook : ℕ → Bool

-- The loop over the hooks from `i` on, `n` of them: the hooks afterwards, the value of `i`, and whether
-- all calls succeeded.
unfoldable pub register_hooks : (ℕ → Bool) → ℕ → ℕ → List ℕ → List ℕ × ℕ × Bool
register_hooks hook i zero hooks = (hooks, i, true)
register_hooks hook i (suc n) hooks =
    let rest = register_hooks hook (i + 1) n (i ∷ hooks) in
    if hook i then rest else (hooks, i, false)

-- `while (--i > 0)`: the hooks below `i` but for the first.
unfoldable pub cleanup_hooks : ℕ → List ℕ → List ℕ
cleanup_hooks zero hooks = hooks
cleanup_hooks (suc zero) hooks = hooks
cleanup_hooks (suc (suc i)) hooks = cleanup_hooks (suc i) (remove (suc i) hooks)

-- The end of ser_iptables_init_module, with the label.
unfoldable pub start_hooks : Params → Answers → Kernel → Kernel × Bool
start_hooks params answers kernel =
    if params.act_hook
    then (let (hooks, i, done) = register_hooks answers.hook 0 nb_hooks kernel.hooks in
        (record kernel { hooks = if done then hooks else cleanup_hooks i hooks }, done))
    else (kernel, true)

-- The kernel and the store afterwards, and whether the result is that of a success. A jump to the label
-- before the first hook is registered finds `i` at 0, and so removes nothing.
unfoldable pub init_module : Params → Answers → Kernel → Topology → Kernel × Topology × Bool
init_module params answers kernel s =
    let (started, done) = start_hooks params answers kernel in
    let (with_device, ready) = start_hooks params answers (record kernel { device = true }) in
    if answers.data_ready
    then (if params.act_device
        then (if answers.device
            then (with_device, init_data s, ready)
            else (kernel, init_data s, false))
        else (started, init_data s, done))
    else (kernel, init_data s, false)

unfoldable pub unregister_hooks : ℕ → ℕ → List ℕ → List ℕ
unregister_hooks i zero hooks = hooks
unregister_hooks i (suc n) hooks = unregister_hooks (i + 1) n (remove i hooks)

-- The device is unregistered if it has a major number.
unfoldable pub exit_module : Params → Kernel → Topology → Kernel × Topology
exit_module params kernel s = (
  record {
    hooks = if params.act_hook then unregister_hooks 0 nb_hooks kernel.hooks else kernel.hooks;
    device = if params.act_device then false else kernel.device;
  },
  free_data s,
)
