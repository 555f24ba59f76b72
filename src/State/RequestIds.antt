-- ===== src/State/RequestIds.antt =====
-- crates/agent-core/src/turn/request_id.rs: the keys of pending requests.
use cloud_agent.Base.{ℕ, ◌≡◌, ◌↔◌, ap, Bool, true, false, ◌==◌, arith}
use cloud_agent.Base.Text.{Text, text_eq, text_eq_iff}
use cloud_agent.Base.Maps.{Eq}
use cloud_agent.Data.Tool.{ℤ, pos, negsuc}

-- `Integer` holds an `i64`.
pub data RequestId : Type 0 where
  string : Text → RequestId
  integer : ℤ → RequestId

unfoldable pub int_eq : ℤ → ℤ → Bool
int_eq (pos m) (pos n) = m == n
int_eq (negsuc m) (negsuc n) = m == n
int_eq m n = false

unfoldable pub id_eq : RequestId → RequestId → Bool
id_eq (string s) (string t) = text_eq s t
id_eq (integer m) (integer n) = int_eq m n
id_eq m n = false

==_iff : (m n : ℕ) → ((m == n) ≡ true) ↔ (m ≡ n)
==_iff m n = (λ h. ground arith, λ h. ground arith)

unpos : ℤ → ℕ
unpos (pos m) = m
unpos (negsuc m) = m

int_eq_iff : (m n : ℤ) → (int_eq m n ≡ true) ↔ (m ≡ n)
unfolding int_eq unpos
int_eq_iff (pos m) (pos n) = (λ h. ap pos ((==_iff m n).0 h), λ e. (==_iff m n).1 (ap unpos e))
int_eq_iff (negsuc m) (negsuc n) =
    (λ h. ap negsuc ((==_iff m n).0 h), λ e. (==_iff m n).1 (ap unpos e))
int_eq_iff (pos m) (negsuc n) = (λ h. cc, λ e. cc)
int_eq_iff (negsuc m) (pos n) = (λ h. cc, λ e. cc)

pub id_eq_iff : (k l : RequestId) → (id_eq k l ≡ true) ↔ (k ≡ l)
unfolding id_eq
id_eq_iff (string s) (string t) =
    (λ h. ground (arith, text_eq_iff s t), λ e. ground (arith, text_eq_iff s t))
id_eq_iff (integer m) (integer n) =
    (λ h. ground (arith, int_eq_iff m n), λ e. ground (arith, int_eq_iff m n))
id_eq_iff (string s) (integer n) = (λ h. cc, λ e. cc)
id_eq_iff (integer m) (string t) = (λ h. cc, λ e. cc)

instance abbrev pub request_id_key : Eq RequestId
request_id_key = record { eq = id_eq; eq_iff = id_eq_iff }
