-- ===== src/Constants/Laws.antt =====
-- What toError gives for each code.
use go_zookeeper.Base.{ℤ, pos, negsuc, ◌≡◌, ◌↔◌, none, arith}
use go_zookeeper.Constants.{to_error}

code_of_success : (c : ℤ) → to_error c ≡ none → c ≡ pos 0
unfolding to_error
code_of_success (pos n) h = ground arith
code_of_success (negsuc n) h = ground arith

-- A code stands for no error exactly when it is 0.
pub to_error-none_iff : (c : ℤ) → (to_error c ≡ none) ↔ (c ≡ pos 0)
unfolding to_error
to_error-none_iff c = (code_of_success c, λ e. rw e)
