-- ===== src/Request.antt =====
-- internal/vectorize/vectorize.go: the decoded payload, and its reset between requests.
use fraud_detection_api.Base.{ℤ, pos, Bool, false, List, [], Bytes}
use fraud_detection_api.Runtime.{Runtime}

module _ (go : Runtime) where
  open go use {Float32, Time, literal32, zero_time}

  pub record Transaction : Type 0 where
    pub amount : Float32
    pub installments : ℤ
    pub requested_at : Time

  pub record Customer : Type 0 where
    pub avg_amount : Float32
    pub tx_count_24h : ℤ
    pub known_merchants : List Bytes

  pub record Merchant : Type 0 where
    pub id : Bytes
    pub mcc : Bytes
    pub avg_amount : Float32

  pub record Terminal : Type 0 where
    pub is_online : Bool
    pub card_present : Bool
    pub km_from_home : Float32

  pub record LastTransaction : Type 0 where
    pub timestamp : Time
    pub km_from_current : Float32

  pub record Request : Type 0 where
    pub id : Bytes
    pub transaction : Transaction
    pub customer : Customer
    pub merchant : Merchant
    pub terminal : Terminal
    pub last_transaction : LastTransaction
    pub has_last_transaction : Bool

  abbrev zero_float : Float32
  zero_float = literal32 (pos 0) 0

  -- `Request{}`, every field at its zero value
  unfoldable pub zero_request : Request
  zero_request = record {
    id = [];
    transaction = record { amount = zero_float; installments = pos 0; requested_at = zero_time };
    customer = record { avg_amount = zero_float; tx_count_24h = pos 0; known_merchants = [] };
    merchant = record { id = []; mcc = []; avg_amount = zero_float };
    terminal = record { is_online = false; card_present = false; km_from_home = zero_float };
    last_transaction = record { timestamp = zero_time; km_from_current = zero_float };
    has_last_transaction = false;
  }

  -- `Reset`: the merchants become the empty slice `KnownMerchants[:0]`; its capacity is not modelled
  unfoldable pub reset : Request → Request
  reset r =
      let km : List Bytes = [] in
      record zero_request { customer = record (zero_request.customer) { known_merchants = km } }
