-- ===== src/HostLocal/Store.antt =====
-- plugins/ipam/host-local/backend/store.go: what the allocator asks of a store, as operations on
-- the store's state. The lock is held through every call of the allocator, so that each call is
-- one step on the state.
use village_net.Common.{ℕ, ◌≡◌, Bool, true, false, List, Result, ok}
use village_net.Net.{Ip}

abbrev pub Text : Type 0
Text = List ℕ

pub data IoError : Type 0 where
  not_exist io_failure : IoError

pub record Store (S : Type 0) : Type 0 where
  pub reserve : Text → Text → Ip → Text → S → Result IoError Bool × S
  pub last_reserved_ip : Text → S → Result IoError Ip
  pub get_by_id : Text → Text → S → List Ip
  pub release_by_id : Text → Text → S → Result IoError (Unit {0}) × S

-- What the allocator relies on: `taken s a` says that the address is held in the state s.
pub record StoreLaws {S : Type 0} (st : Store S) (taken : S → Ip → Bool) : Type 0 where
  pub reserve_taken :
      (id ifname : Text) (a : Ip) (range_id : Text) (s : S)
      → taken s a ≡ true
      → st.reserve id ifname a range_id s ≡ (ok false, s)
  pub reserve_free :
      (id ifname : Text) (a : Ip) (range_id : Text) (s : S)
      → taken s a ≡ false
      → (st.reserve id ifname a range_id s).0 ≡ ok true
