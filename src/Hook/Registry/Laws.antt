-- ===== src/Hook/Registry/Laws.antt =====
-- The outcomes of `register_hook` of hooks.c, and `unregister_hook` after it.
use Prim.Native.String.{String}
use text.Mathlib.Text.{◌==◌ as str_eq}
use pmu_min_suite.Prelude.{
  ℕ, ◌≡◌, ◌≢◌, refl, true, false, Option, none, some, ◌==◌, if◌then◌else◌, ℤ, pos, enomem, einval,
  enxio, is_err, List, [], ◌∷◌, arith, zero, suc, ap, ◌∙◌,
}
use pmu_min_suite.Hook.{HookType, same_type}
use pmu_min_suite.Hook.Registry.{
  Tracepoint, TracepointApi, Hook, Kmalloc, failed, memory, get_tp_name, lookup_tracepoint,
  lookup_all, Registry, add_hook, register_hook, find_hook, remove_hook, unregister_hook,
}

-- The tracepoint that a search by name ends with: the last of that name, or what was there before.
unfoldable pub last_named : String → Option ℕ → List Tracepoint → Option ℕ
last_named name tp [] = tp
last_named name tp (t ∷ ts) = last_named name (if str_eq name t.name then some t.addr else tp) ts

lookup_all_lem :
    (tps : List Tracepoint) (hook : Hook)
    → lookup_all tps hook ≡ record hook { tp = last_named hook.name hook.tp tps }
unfolding lookup_all lookup_tracepoint last_named
lookup_all_lem [] hook = refl
lookup_all_lem (t ∷ ts) hook = ground (arith, lookup_all_lem ts (lookup_tracepoint t hook))

last_named-some :
    (name : String) (junk : Option ℕ) (tp : ℕ) (tps : List Tracepoint)
    → last_named name none tps ≡ some tp
    → last_named name junk tps ≡ some tp
unfolding last_named
last_named-some name junk tp [] h = cc
last_named-some name junk tp (t ∷ ts) h = ground (arith, last_named-some name junk tp ts)

module _ (api : TracepointApi) where
  open api use {Probes, tracepoints, probe_register, register-fails, unregister-register}

  -- The tracepoint that the hook of a type is put on, given what its memory held before.
  abbrev pub target : Option ℕ → HookType → Option ℕ
  target junk type = last_named (get_tp_name type) junk tracepoints

  abbrev pub new_hook : ℕ → HookType → ℕ → Hook
  new_hook tp type func = record { name = get_tp_name type; func = func; type = type; tp = some tp }

  -- What `register_hook` does once it has memory, given the tracepoint that it found.
  pub placed : Registry api → HookType → ℕ → Option ℕ → Registry api × ℤ
  placed s type func none = (s, enxio)
  placed s type func (some tp) =
      if is_err (probe_register s.probes tp func).1 then (s, enxio) else (
        record {
          hooks_list = new_hook tp type func ∷ s.hooks_list;
          probes = (probe_register s.probes tp func).0;
        },
        pos 0,
      )

  add_hook-placed :
      (s : Registry api) (type : HookType) (func : ℕ) (tp : Option ℕ)
      → add_hook api s (record { name = get_tp_name type; func = func; type = type; tp = tp })
        ≡ placed s type func tp
  unfolding add_hook placed
  add_hook-placed s type func none = refl
  add_hook-placed s type func (some tp) = ground (arith, register-fails s.probes tp func)

  register_hook-memory :
      (junk : Option ℕ) (s : Registry api) (type : HookType) (func : ℕ)
      → func ≢ 0
      → register_hook api (memory junk) s type func ≡ placed s type func (target junk type)
  unfolding register_hook
  register_hook-memory junk s type func h = ground (
    arith,
    lookup_all_lem tracepoints
        (record { name = get_tp_name type; func = func; type = type; tp = junk }),
    add_hook-placed s type func (target junk type),
  )

  register_hook-failed :
      (s : Registry api) (type : HookType) (func : ℕ)
      → register_hook api failed s type func ≡ (s, if func == 0 then einval else enomem)
  unfolding register_hook
  register_hook-failed s type func = ground arith

  register_hook-null :
      (mem : Kmalloc) (s : Registry api) (type : HookType)
      → register_hook api mem s type 0 ≡ (s, einval)
  unfolding register_hook
  register_hook-null mem s type = refl

  placed-fails :
      (s : Registry api) (type : HookType) (func : ℕ) (tp : Option ℕ)
      → is_err (placed s type func tp).1 ≡ true
      → placed s type func tp ≡ (s, enxio)
  unfolding placed
  placed-fails s type func none h = refl
  placed-fails s type func (some tp) h = ground arith

  same_type_refl : (t : HookType) → same_type t t ≡ true
  same_type_refl t = ground arith

  unregister_hook-placed :
      (s : Registry api) (type : HookType) (func : ℕ) (tp : Option ℕ)
      → is_err (placed s type func tp).1 ≡ false
      → unregister_hook api (placed s type func tp).0 type func ≡ some s
  unfolding placed unregister_hook find_hook remove_hook
  unregister_hook-placed s type func none h = cc
  unregister_hook-placed s type func (some tp) h =
      ground (arith, same_type_refl type, unregister-register s.probes tp func)

  -- A registration that fails changes nothing: not the list, and not the probes.
  pub register_hook-fails :
      (mem : Kmalloc) (s : Registry api) (type : HookType) (func : ℕ)
      → is_err (register_hook api mem s type func).1 ≡ true
      → (register_hook api mem s type func).0 ≡ s
  register_hook-fails failed s type func h = ground (arith, register_hook-failed s type func)
  register_hook-fails (memory junk) s type zero h =
      ground (arith, register_hook-null (memory junk) s type)
  register_hook-fails (memory junk) s type (suc f) h = ground (
    arith,
    register_hook-memory junk s type (suc f),
    placed-fails s type (suc f) (target junk type),
  )

  -- Unregistering takes back a registration that succeeded, also where other hooks of the same
  -- type and function are in the list.
  pub unregister_hook-register_hook :
      (mem : Kmalloc) (s : Registry api) (type : HookType) (func : ℕ)
      → is_err (register_hook api mem s type func).1 ≡ false
      → unregister_hook api (register_hook api mem s type func).0 type func ≡ some s
  unregister_hook-register_hook failed s type func h =
      absurd (ground (arith, register_hook-failed s type func))
  unregister_hook-register_hook (memory junk) s type zero h =
      absurd (ground (arith, register_hook-null (memory junk) s type))
  unregister_hook-register_hook (memory junk) s type (suc f) h =
      rw (register_hook-memory junk s type (suc f) (omega arith)) (
        unregister_hook-placed s type (suc f) (target junk type)
          (rw (register_hook-memory junk s type (suc f) (omega arith)) at h))

  -- With memory, a function that is not NULL and a tracepoint of the type's name, the result
  -- depends neither on what the memory held nor on anything but the kernel's answer: the hook is
  -- put on the last tracepoint of that name, or the error is -ENXIO.
  register_hook-named :
      (junk : Option ℕ) (s : Registry api) (type : HookType) (func tp : ℕ)
      → func ≢ 0
      → last_named (get_tp_name type) none tracepoints ≡ some tp
      → register_hook api (memory junk) s type func ≡ (
          if is_err (probe_register s.probes tp func).1 then (s, enxio) else (
            record {
              hooks_list = new_hook tp type func ∷ s.hooks_list;
              probes = (probe_register s.probes tp func).0;
            },
            pos 0,
          ))
  unfolding placed
  register_hook-named junk s type func tp h e =
      register_hook-memory junk s type func h
      ∙ ap (placed s type func) (last_named-some (get_tp_name type) junk tp tracepoints e)

  placed-hooks_list :
      (s : Registry api) (type : HookType) (func : ℕ) (tp : Option ℕ)
      → is_err (placed s type func tp).1 ≡ false
      → (t : ℕ) × ((placed s type func tp).0.hooks_list ≡ new_hook t type func ∷ s.hooks_list)
  unfolding placed
  placed-hooks_list s type func none h = absurd (ground arith)
  placed-hooks_list s type func (some tp) h = (tp, ground arith)

  -- A registration that succeeds puts a hook of the type and function at the head of the list.
  pub register_hook-hooks_list :
      (mem : Kmalloc) (s : Registry api) (type : HookType) (func : ℕ)
      → is_err (register_hook api mem s type func).1 ≡ false
      → (t : ℕ) × ((register_hook api mem s type func).0.hooks_list
          ≡ new_hook t type func ∷ s.hooks_list)
  register_hook-hooks_list failed s type func h =
      absurd (ground (arith, register_hook-failed s type func))
  register_hook-hooks_list (memory junk) s type zero h =
      absurd (ground (arith, register_hook-null (memory junk) s type))
  register_hook-hooks_list (memory junk) s type (suc f) h =
      rw (register_hook-memory junk s type (suc f) (omega arith)) (
        placed-hooks_list s type (suc f) (target junk type)
          (rw (register_hook-memory junk s type (suc f) (omega arith)) at h))
