-- ===== src/Network/Rest/Asked.antt =====
-- The peers that `send_to_all` asks (src/network/rest_network.rs), against one `send_and_wait` each.
use rustchain.Base.{
  ◌≡◌, refl, Option, none, some, List, [], ◌∷◌, Result, err, ◌>>=◌, if◌then◌else◌, nat_eq, arith,
  ◌∙◌, Option-cases, inl, inr,
}
use rustchain.Base.Dict
use rustchain.Base.Dict.{Dict, get-insert}
use rustchain.Base.Dict.Unique.{Unique, Unique-insert}
use rustchain.Base.Sets.{contains}
use rustchain.Data.{Bytes, PeerId, Error, peer_not_found}
use rustchain.Network.{SocketAddr, NetworkMessage, Request, Json}
use rustchain.Network.Rest.{
  RestNetwork, send_message, send_and_wait, ask_each, collect, send_to_all,
}

-- The peers up to the first that is not known, this one included.
unfoldable pub asked : Dict PeerId SocketAddr → List PeerId → List PeerId
asked known [] = []
asked known (id ∷ ids) =
    let rest = asked known ids in
    elim (Dict.get known id) [ none ↦ id ∷ [] | some addr ↦ id ∷ rest ]

module _ (T : Type 0) (json : Json) (http : Request → Result Error Bytes)
    (known : Dict PeerId SocketAddr) (message : NetworkMessage) (id : PeerId) where
  module _ (addr : SocketAddr) (there : Dict.get known id ≡ some addr) where
    handles_of_known :
        (ids : List PeerId) (handles : Dict PeerId (Result Error Bytes))
        → Dict.get (ask_each json http {T = T} known message ids handles).1 id ≡ (
            if contains (asked known ids) id
            then some (send_message json http message addr)
            else Dict.get handles id)
    unfolding ask_each asked contains
    handles_of_known [] handles = refl
    handles_of_known (k ∷ ids) handles = elim (Option-cases (Dict.get known k)) [
      | inl absent ↦ rw (absent, ask_each, asked) (ground (arith, absent, there))
      | inr (a, present) ↦
          rw (present, ask_each, asked)
            (handles_of_known ids (Dict.insert k (send_message json http message a) handles)
              ∙ ground (
                arith,
                present,
                there,
                get-insert handles k id (send_message json http message a),
              ))
    ]

    results_of_known :
        (ids : List PeerId) (handles : Dict PeerId (Result Error Bytes))
        → Dict.get (ask_each json http {T = T} known message ids handles).0 id ≡ none
    unfolding ask_each Dict.get Dict.insert
    results_of_known [] handles = refl
    results_of_known (k ∷ ids) handles = elim (Option-cases (Dict.get known k)) [
      | inl absent ↦ rw (absent, ask_each) (ground (arith, absent, there))
      | inr (a, present) ↦
          rw (present, ask_each)
            (results_of_known ids (Dict.insert k (send_message json http message a) handles))
    ]

  module _ (absent : Dict.get known id ≡ none) where
    handles_of_unknown :
        (ids : List PeerId) (handles : Dict PeerId (Result Error Bytes))
        → Dict.get (ask_each json http {T = T} known message ids handles).1 id ≡ Dict.get handles id
    unfolding ask_each
    handles_of_unknown [] handles = refl
    handles_of_unknown (k ∷ ids) handles = elim (Option-cases (Dict.get known k)) [
      | inl end ↦ rw (end, ask_each) refl
      | inr (a, present) ↦
          rw (present, ask_each)
            (handles_of_unknown ids (Dict.insert k (send_message json http message a) handles)
              ∙ ground (
                arith,
                present,
                absent,
                get-insert handles k id (send_message json http message a),
              ))
    ]

    results_of_unknown :
        (ids : List PeerId) (handles : Dict PeerId (Result Error Bytes))
        → Dict.get (ask_each json http {T = T} known message ids handles).0 id
          ≡ (if contains (asked known ids) id then some (err peer_not_found) else none)
    unfolding ask_each asked contains Dict.get Dict.insert
    results_of_unknown [] handles = refl
    results_of_unknown (k ∷ ids) handles = elim (Option-cases (Dict.get known k)) [
      | inl end ↦ rw (end, ask_each, asked) (ground arith)
      | inr (a, present) ↦
          rw (present, ask_each, asked)
            (results_of_unknown ids (Dict.insert k (send_message json http message a) handles)
              ∙ ground (arith, present, absent))
    ]

ask_each-Unique :
    (T : Type 0) (json : Json) (http : Request → Result Error Bytes)
    (known : Dict PeerId SocketAddr) (message : NetworkMessage) (ids : List PeerId)
    (handles : Dict PeerId (Result Error Bytes))
    → Unique handles
    → Unique (ask_each json http {T = T} known message ids handles).1
unfolding ask_each
ask_each-Unique T json http known message [] handles u = u
ask_each-Unique T json http known message (k ∷ ids) handles u =
    elim (Option-cases (Dict.get known k)) [
      | inl end ↦ rw (end, ask_each) u
      | inr (a, present) ↦
          let sent = send_message json http message a in
          rw (present, ask_each)
            (ask_each-Unique T json http known message ids (Dict.insert k sent handles)
              (Unique-insert k sent handles u))
    ]

-- What the second loop makes of a task, or of a result that was there.
abbrev finished :
    {T : Type 0}
    → (Bytes → Result Error T)
    → Option (Result Error Bytes)
    → Option (Result Error T)
    → Option (Result Error T)
finished deserialize none result = result
finished deserialize (some handle) result = some (handle >>= deserialize)

get-collect :
    {T : Type 0} (deserialize : Bytes → Result Error T) (id : PeerId)
    (handles : Dict PeerId (Result Error Bytes)) (results : Dict PeerId (Result Error T))
    → Unique handles
    → Dict.get (collect deserialize handles results) id
      ≡ finished deserialize (Dict.get handles id) (Dict.get results id)
unfolding collect Dict.get
get-collect deserialize id [] results u = refl
get-collect deserialize id ((k, handle) ∷ handles) results u =
    get-collect deserialize id handles (Dict.insert k (handle >>= deserialize) results) u.1
    ∙ ground (arith, get-insert results k id (handle >>= deserialize), u.0)

module _ {Sender T : Type 0} (json : Json) (http : Request → Result Error Bytes)
    (deserialize : Bytes → Result Error T) where
  -- A request to a list of peers has the result of send_and_wait for each peer up to the first
  -- that is not known, this one included, and none for the peers that stand only behind it.
  pub send_to_all-send_and_wait :
      (net : RestNetwork Sender) (message : NetworkMessage) (ids : List PeerId) (id : PeerId)
      → Dict.get (send_to_all json http deserialize net message ids) id ≡ (
          if contains (asked net.known_peers ids) id
          then some (send_and_wait json http deserialize net id message)
          else none)
  unfolding send_to_all send_and_wait
  send_to_all-send_and_wait net message ids id =
      let known = net.known_peers in
      let both = ask_each json http {T = T} known message ids [] in
      let joined =
        get-collect deserialize id both.1 both.0
          (ask_each-Unique T json http known message ids [] tt) in
      elim (Option-cases (Dict.get known id)) [
        | inl absent ↦
            joined
            ∙ rw
                (
                  handles_of_unknown T json http known message id absent ids [],
                  results_of_unknown T json http known message id absent ids [],
                )
                (unfold Dict.get in ground (arith, absent))
        | inr (addr, there) ↦
            joined
            ∙ rw
                (
                  handles_of_known T json http known message id addr there ids [],
                  results_of_known T json http known message id addr there ids [],
                )
                (unfold Dict.get in ground (arith, there))
      ]
