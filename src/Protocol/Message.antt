-- ===== src/Protocol/Message.antt =====
-- crates/blitz-protocol/src/message.rs: what a client asks and what a server answers.
use blitz_db.Prelude.{
  ℕ, String, Bool, true, false, Option, none, some, List, [], ◌∷◌, if◌then◌else◌, ◌==◌, ◌≡◌, refl,
}
use blitz_db.Prelude.Map.{Map}

pub data Op : Type 0 where
  ping insert get update delete scan subscribe find search_op call job_submit job_poll proc_deploy :
      Op
  proc_list proc_drop version table_create : Op

unfoldable pub tag : Op → ℕ
tag ping = 0
tag insert = 1
tag get = 2
tag update = 3
tag delete = 4
tag scan = 5
tag subscribe = 6
tag find = 7
tag search_op = 8
tag call = 9
tag job_submit = 10
tag job_poll = 11
tag proc_deploy = 12
tag proc_list = 13
tag proc_drop = 14
tag version = 15
tag table_create = 16

abbrev all_ops : List Op
all_ops =
    ping ∷ insert ∷ get ∷ update ∷ delete ∷ scan ∷ subscribe ∷ find ∷ search_op ∷ call ∷ job_submit
    ∷ job_poll ∷ proc_deploy ∷ proc_list ∷ proc_drop ∷ version ∷ table_create ∷ []

-- The arms of the match, one after the other.
unfoldable pub first_tagged : ℕ → List Op → Option Op
unfolding tag
first_tagged t [] = none
first_tagged t (op ∷ ops) = if t == tag op then some op else first_tagged t ops

unfoldable pub from_tag : ℕ → Option Op
unfolding first_tagged
from_tag t = first_tagged t all_ops

pub from_tag-tag : (op : Op) → from_tag (tag op) ≡ some op
unfolding from_tag tag
from_tag-tag ping = refl
from_tag-tag _ = refl

pub record Request (V : Type 0) : Type 0 where
  pub id : ℕ
  pub op : Op
  pub table : String
  pub row_id : Option ℕ
  pub values : Option (Map String V)

pub record RowView (V : Type 0) : Type 0 where
  pub id : ℕ
  pub values : Map String V

pub record Response (V : Type 0) : Type 0 where
  pub id : ℕ
  pub ok : Bool
  pub rows : List (RowView V)
  pub error : Option String

pub record BatchRequest (V : Type 0) : Type 0 where
  pub id : ℕ
  pub ops : List (Request V)

pub record BatchResponse (V : Type 0) : Type 0 where
  pub id : ℕ
  pub results : List (Response V)

module _ {V : Type 0} where
  unfoldable pub new_ping : ℕ → Request V
  new_ping i = record { id = i; op = ping; table = ""; row_id = none; values = none }

  unfoldable pub ok_response : ℕ → List (RowView V) → Response V
  ok_response i rows = record { id = i; ok = true; rows = rows; error = none }

  unfoldable pub err_response : ℕ → String → Response V
  err_response i msg = record { id = i; ok = false; rows = []; error = some msg }
