-- ===== src/Binding/Keys.antt =====
-- The cache keys of src/modules/binding: template literals over ids. Keys of different families are
-- told apart by their literal prefixes.
use app_tu_phuc_vu.Prelude.{◌∷◌, ◌++◌}
use app_tu_phuc_vu.Prelude.Text.{Text, codes}

unfoldable pub user_fail_key : Text → Text → Text
user_fail_key u r = codes "bind:fail:user:" ++ (u ++ b':' ∷ r)

unfoldable pub user_lock_key : Text → Text → Text
user_lock_key u r = codes "bind:lock:user:" ++ (u ++ b':' ∷ r)

unfoldable pub cust_fail_key : Text → Text
cust_fail_key r = codes "bind:fail:cust:" ++ r

unfoldable pub cust_lock_key : Text → Text
cust_lock_key r = codes "bind:lock:cust:" ++ r

unfoldable pub user_total_fail_key : Text → Text
user_total_fail_key u = codes "bind:fail:user_total:" ++ u

unfoldable pub user_total_lock_key : Text → Text
user_total_lock_key u = codes "bind:lock:user_total:" ++ u

unfoldable pub init_key : Text → Text
init_key session = codes "bind:init:" ++ session

unfoldable pub bind_key : Text → Text
bind_key u = codes "bind:" ++ u
