-- ===== src/Router.antt =====
-- dummy.cpp: the router of the tests: its registry of methods, and how it routes notifications. The
-- registry is `std::map<std::string, int>`, here its entries, and its mutex makes each operation one
-- step; console output is left out.
pub mod Registry
pub mod Clients
pub mod Echo
pub mod Main
pub mod Requests
pub mod Routing
pub mod Threads
pub mod Writes
use arduino_q_plugin.Common.{
  ℕ, zero, suc, ◌-◌, String, Bool, true, false, Option, none, some, List, [], ◌∷◌, ◌++◌, ltb,
  if◌then◌else◌, ◌==◌,
}
use arduino_q_plugin.Common.Int.{ℤ, pos, negsuc}
use arduino_q_plugin.Msgpack.{Object, Objects, Msgpack, size, encode_all}
use text.Mathlib.Text.{◌==◌ as text_eq}

-- `operator[]` for writing.
unfoldable pub register_method : ℕ → String → List (String × ℕ) → List (String × ℕ)
register_method fd method [] = (method, fd) ∷ []
register_method fd method ((name, owner) ∷ entries) =
    if text_eq name method
    then (name, fd) ∷ entries
    else (name, owner) ∷ register_method fd method entries

unfoldable pub reset_methods : ℕ → List (String × ℕ) → List (String × ℕ)
reset_methods fd [] = []
reset_methods fd ((name, owner) ∷ entries) =
    if owner == fd then reset_methods fd entries else (name, owner) ∷ reset_methods fd entries

unfoldable pub lookup_method : String → List (String × ℕ) → ℤ
lookup_method method [] = negsuc 0
lookup_method method ((name, owner) ∷ entries) =
    if text_eq name method then pos owner else lookup_method method entries

-- The elements from an index on.
abbrev pub elements_from : ℕ → Objects → Objects
elements_from zero os = os
elements_from (suc n) Objects.no_objects = Objects.no_objects
elements_from (suc n) (Objects.element o os) = elements_from n os

module _ (mp : Msgpack) where
  -- The buffer of `send_notification`, and none where it returns false before it sends.
  unfoldable pub notification_buffer : String → Object → ℕ → Option (List mp.Byte)
  notification_buffer method (Object.array params) first_param =
      if ltb (size params) first_param
      then none
      else some (
          mp.pack_array 3
          ++ (mp.pack_int (pos 2)
              ++ (mp.pack_str method
                  ++ (mp.pack_array (size params - first_param)
                      ++ encode_all mp (elements_from first_param params)))))
  notification_buffer method _ first_param = none

  -- The buffer and the descriptor that it goes to, unless the lookup found none.
  abbrev pub sent_to : ℤ → Option (List mp.Byte) → Option (ℕ × List mp.Byte)
  sent_to (pos fd) (some bytes) = some (fd, bytes)
  sent_to (pos fd) none = none
  sent_to (negsuc n) buffer = none

  -- What `route_notification` sends, and to which descriptor.
  unfoldable pub route_notification :
      List (String × ℕ) → String → Object → ℕ → Option (ℕ × List mp.Byte)
  unfolding notification_buffer
  route_notification entries method params first_param =
      sent_to (lookup_method method entries) (notification_buffer method params first_param)
