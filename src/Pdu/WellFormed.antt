-- ===== src/Pdu/WellFormed.antt =====
-- Which PDUs of src/pdu.rs the wire format can carry unchanged: strings fit their octet fields, fixed
-- arrays have their length, and the counted parts fit a byte.
use cmppprotocol.Prelude.{◌≤◌, ◌≡◌, All, length}
use cmppprotocol.Types.{IsU32}
use cmppprotocol.Pdu.Fields.{Fits}
use cmppprotocol.Pdu.Connect.{Connect}
use cmppprotocol.Pdu.Submit.{Submit}
use cmppprotocol.Pdu.Deliver.{Deliver}
use cmppprotocol.Pdu.Message.{
  Pdu, connect, connect_resp, submit, submit_resp, deliver, deliver_resp,
}

pub record ConnectFits (p : Connect) : Type 0 where
  pub source_addr : Fits 6 p.source_addr
  pub authenticator : length p.authenticator_source ≡ 16
  pub timestamp : IsU32 p.timestamp

pub record SubmitFits (p : Submit) : Type 0 where
  pub msg_id : length p.msg_id ≡ 8
  pub service_id : Fits 10 p.service_id
  pub fee_terminal_id : Fits 21 p.fee_terminal_id
  pub msg_src : Fits 6 p.msg_src
  pub fee_type : Fits 2 p.fee_type
  pub fee_code : Fits 6 p.fee_code
  pub valid_time : Fits 17 p.valid_time
  pub at_time : Fits 17 p.at_time
  pub src_id : Fits 21 p.src_id
  pub destinations : All (Fits 21) p.dest_terminal_ids
  pub few_destinations : length p.dest_terminal_ids ≤ 255
  pub short_content : length p.msg_content ≤ 255

pub record DeliverFits (p : Deliver) : Type 0 where
  pub msg_id : length p.msg_id ≡ 8
  pub dest_id : Fits 21 p.dest_id
  pub service_id : Fits 10 p.service_id
  pub src_terminal_id : Fits 21 p.src_terminal_id
  pub short_content : length p.msg_content ≤ 255

abbrev pub PduFits : Pdu → Type 0
PduFits (connect p) = ConnectFits p
PduFits (connect_resp p) = length p.authenticator_ismg ≡ 16
PduFits (submit p) = SubmitFits p
PduFits (submit_resp p) = length p.msg_id ≡ 8
PduFits (deliver p) = DeliverFits p
PduFits (deliver_resp p) = length p.msg_id ≡ 8
PduFits _ = Unit
