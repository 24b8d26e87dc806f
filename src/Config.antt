-- ===== src/Config.antt =====
-- internal/config/constants.go: normalization constants and the MCC risk table. A constant with a
-- decimal point is the pair of an integer and a count of decimal places.
use Prim.Native.Char.{code}
use Prim.Native.String.{String}
use fraud_detection_api.Base.{ℕ, List, [], ◌∷◌, Option, none, some, Bytes, bytes_eq, if◌then◌else◌}

-- The bytes of an ASCII text.
abbrev pub codes : String → Bytes
codes String.[] = []
codes (String.◌∷◌ c s) = code c ∷ codes s

abbrev pub max_amount : ℕ
max_amount = 10000

abbrev pub max_installments : ℕ
max_installments = 12

abbrev pub amount_vs_avg_ratio : ℕ
amount_vs_avg_ratio = 10

abbrev pub max_minutes : ℕ
max_minutes = 1440

abbrev pub max_km : ℕ
max_km = 1000

abbrev pub max_tx_count_24h : ℕ
max_tx_count_24h = 20

abbrev pub max_merchant_avg_amount : ℕ
max_merchant_avg_amount = 10000

-- In hundredths, as the weights of the table are.
abbrev pub mcc_risk_default : ℕ
mcc_risk_default = 50

abbrev pub vector_dim : ℕ
vector_dim = 14

unfoldable pub mcc_risk : List (Bytes × ℕ)
mcc_risk =
    (codes "5411", 15)
    ∷ (codes "5812", 30)
    ∷ (codes "5912", 20)
    ∷ (codes "5944", 45)
    ∷ (codes "7801", 80)
    ∷ (codes "7802", 75)
    ∷ (codes "7995", 85)
    ∷ (codes "4511", 35)
    ∷ (codes "5311", 25)
    ∷ (codes "5999", 50)
    ∷ []

-- `risk, ok := table[mcc]`
unfoldable pub lookup_risk : Bytes → List (Bytes × ℕ) → Option ℕ
lookup_risk mcc [] = none
lookup_risk mcc ((code, risk) ∷ rest) =
    if bytes_eq code mcc then some risk else lookup_risk mcc rest
