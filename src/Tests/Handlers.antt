-- ===== src/Tests/Handlers.antt =====
-- The theorems on the handlers of events at concrete inputs, on a server in memory.
use odoo_operator.Base.{◌≡◌, refl, none, some, All}
use odoo_operator.Value.{null}
use odoo_operator.Prog.{secret, cron_job, pvc, ok}
use odoo_operator.Prog.Only.{Only}
use odoo_operator.Server.{present, IsStored, IsGone}
use odoo_operator.Server.Run.{run}
use odoo_operator.Server.Memory.{memory, empty}
use odoo_operator.Server.Memory.Laws.{memory-Accepts, memory-IsLawful, memory-IsHealthy}
use odoo_operator.Owner.{key}
use odoo_operator.Scope.{Provisions, Removes, InScope}
use odoo_operator.Main.{on_create, on_update, on_delete}
use odoo_operator.Main.Creation.Rules.{cluster_keys}
use odoo_operator.Main.Stored.{Succeeds-on_create, on_create-IsStored, on_update-total}
use odoo_operator.Main.Scope.{
  on_create-Provisions, on_update-spares, on_update-frame, on_delete-Removes, on_delete-leaves,
}
use odoo_operator.Main.Phase.{IsConclusion, on_create-concludes, on_update-concludes}
use odoo_operator.Main.Removal.{removed_keys, on_delete-removed, on_delete-total}
use odoo_operator.Tests.{python, spec, shop, full, plain}
use odoo_operator.Prog.Only.{Only}

on_update-total_example :
    ((run memory (on_update python spec "shop" "prod" (some "uid-1")) empty).result ≡ ok tt)
    × All
        (λ k. IsStored (
          memory.find
            (run memory (on_update python spec "shop" "prod" (some "uid-1")) empty).state
            k))
        (cluster_keys shop)
on_update-total_example =
    on_update-total memory python spec "shop" "prod" (some "uid-1") empty memory-IsLawful
      memory-IsHealthy plain (memory-Accepts _ _)

on_create-IsStored_example :
    All
      (λ k. IsStored (
        memory.find
          (run memory (on_create python spec "shop" "prod" (some "uid-1")) empty).state
          k))
      (cluster_keys shop)
on_create-IsStored_example =
    on_create-IsStored memory python spec "shop" "prod" (some "uid-1") empty memory-IsLawful
      ((Succeeds-on_create memory memory-IsLawful memory-IsHealthy python spec "shop" "prod"
          (some "uid-1") plain).at
        empty (memory-Accepts _ _)).1

on_create-Provisions_example :
    Only (Provisions "prod" "shop") (on_create python spec "shop" "prod" (some "uid-1"))
on_create-Provisions_example = on_create-Provisions python spec "shop" "prod" (some "uid-1")

on_update-spares_example :
    (run memory (on_update python spec "shop" "prod" (some "uid-1")) full).state
      (key pvc "prod" "shop-odoo-filestore")
    ≡ present null
on_update-spares_example =
    on_update-spares memory python spec "shop" "prod" (some "uid-1") full
      (key pvc "prod" "shop-odoo-filestore") memory-IsLawful refl tt

not-InScope : ¬ InScope "prod" "shop" (key secret "other" "shop-odoo-admin")
not-InScope p = cc p.0

on_update-frame_example :
    (run memory (on_update python spec "shop" "prod" (some "uid-1")) full).state
      (key secret "other" "shop-odoo-admin")
    ≡ present null
on_update-frame_example =
    on_update-frame memory python spec "shop" "prod" (some "uid-1") full
      (key secret "other" "shop-odoo-admin") memory-IsLawful not-InScope

on_delete-Removes_example : Only (Removes "prod" "shop") (on_delete spec "shop" "prod")
on_delete-Removes_example = on_delete-Removes spec "shop" "prod"

on_delete-leaves_example :
    (run memory (on_delete spec "shop" "prod") full).state
      (key cron_job "prod" "shop-filestore-backup")
    ≡ present null
on_delete-leaves_example =
    on_delete-leaves memory spec "shop" "prod" full (key cron_job "prod" "shop-filestore-backup")
      memory-IsLawful refl

on_delete-total_example :
    ((run memory (on_delete spec "shop" "prod") full).result ≡ ok tt)
    × All
        (λ k. IsGone (memory.find (run memory (on_delete spec "shop" "prod") full).state k))
        (removed_keys spec "shop" "prod")
on_delete-total_example =
    on_delete-total memory spec "shop" "prod" full memory-IsLawful memory-IsHealthy

on_delete-removed_example :
    All
      (λ k. IsGone (memory.find (run memory (on_delete spec "shop" "prod") full).state k))
      (removed_keys spec "shop" "prod")
on_delete-removed_example =
    on_delete-removed memory spec "shop" "prod" full memory-IsLawful on_delete-total_example.0

on_create-concludes_example :
    IsConclusion (run memory (on_create python spec "shop" "prod" none) full)
on_create-concludes_example =
    on_create-concludes memory python spec "shop" "prod" none full memory-IsHealthy.clock

on_update-concludes_example :
    IsConclusion (run memory (on_update python spec "shop" "prod" none) full)
on_update-concludes_example =
    on_update-concludes memory python spec "shop" "prod" none full memory-IsHealthy.clock
