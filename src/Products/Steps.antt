-- ===== src/Products/Steps.antt =====
-- Every sequence of operations on the products keeps the default product sound.
use reeva.Prelude.{◌≡◌, List, ok}
use reeva.Model.{Uuid, Software}
use reeva.Input.{Value}
use reeva.Products.{toggle_active, set_default, update_name}
use reeva.Products.Default.{
  IsSound, toggle_active-IsSound, set_default-IsSound, update_name-IsSound,
}

-- One request on the products that are there.
pub data Step : List Software → List Software → Type 0 where
  toggled :
      {rows rows1 : List Software} (id : Uuid) → toggle_active rows id ≡ ok rows1 → Step rows rows1
  chosen :
      {rows rows1 : List Software} (id : Uuid) → set_default rows id ≡ ok rows1 → Step rows rows1
  renamed :
      {rows rows1 : List Software} (id : Uuid) (input : Value)
      → update_name rows id input ≡ ok rows1
      → Step rows rows1

pub data Reach (start : List Software) : List Software → Type 0 where
  here : Reach start start
  then_step : {rows rows1 : List Software} → Reach start rows → Step rows rows1 → Reach start rows1

Step-IsSound : {rows rows1 : List Software} → Step rows rows1 → IsSound rows → IsSound rows1
Step-IsSound (toggled id e) h = toggle_active-IsSound _ _ id e h
Step-IsSound (chosen id e) h = set_default-IsSound _ _ id e h
Step-IsSound (renamed id input e) h = update_name-IsSound _ _ id input e h

-- Whatever sequence of switches, choices of the default and renamings succeeds: ids stay a key,
-- every default product is active, and there is at most one default product.
pub Reach-IsSound : {start rows : List Software} → IsSound start → Reach start rows → IsSound rows
Reach-IsSound h here = h
Reach-IsSound h (then_step r s) = Step-IsSound s (Reach-IsSound h r)
