-- ===== src/Network/Local/Each.antt =====
-- `send_and_wait_for_all` of src/network/local_network.rs against one `send_and_wait` each.
use rustchain.Base.{◌≡◌, refl, none, some, List, [], ◌∷◌, Result, if◌then◌else◌, nat_eq, arith, ◌∙◌}
use rustchain.Base.Dict
use rustchain.Base.Dict.{Dict, get-insert}
use rustchain.Base.Sets.{contains}
use rustchain.Data.{PeerId, BlockFile, BlockStorageState, Error}
use rustchain.Env.{Env}
use rustchain.Network.{NetworkMessage}
use rustchain.Network.Local.{LocalNetwork, send_and_wait, ask_all, send_and_wait_for_all}

module _ {Sender T : Type 0} (env : Env) (from_state : BlockStorageState → Result Error T)
    (from_block : BlockFile → Result Error T) (net : LocalNetwork Sender)
    (message : NetworkMessage) where
  get-ask_all :
      (id : PeerId) (peers : List PeerId) (results : Dict PeerId (Result Error T))
      → Dict.get (ask_all env from_state from_block net message peers results) id ≡ (
          if contains peers id
          then some (send_and_wait env from_state from_block net id message)
          else Dict.get results id)
  unfolding ask_all contains
  get-ask_all id [] results = refl
  get-ask_all id (k ∷ peers) results =
      let answer = send_and_wait env from_state from_block net k message in
      get-ask_all id peers (Dict.insert k answer results)
      ∙ ground (arith, get-insert results k id answer)

  pub send_and_wait_for_all-send_and_wait :
      (peers : List PeerId) (id : PeerId)
      → Dict.get (send_and_wait_for_all env from_state from_block net message peers) id ≡ (
          if contains peers id
          then some (send_and_wait env from_state from_block net id message)
          else none)
  unfolding send_and_wait_for_all
  send_and_wait_for_all-send_and_wait peers id = get-ask_all id peers [] ∙ unfold Dict.get in refl
