-- ===== src/Machine/Mac/Collision.antt =====
-- Which pairs of a community's name and a machine id pkg/machine/mac.go cannot tell apart.
use mathlib.Core.List.{append_assoc}
use n2n_go.Base.{ℕ, ◌≡◌, sym, ap, ◌∙◌, inl, inr, ◌++◌, ltb, Bool-cases, take}
use n2n_go.Base.Exec.{ok}
use n2n_go.Base.Keys.{Text}
use n2n_go.Machine.Mac.{
  ext_generate_mac, hash_key, not_sip_hash24, ext_generate_mac_with, le_bytes, mark, mac_data,
}

mac_data_shift :
    (machine_id name x : Text) (idx : ℕ)
    → mac_data machine_id (x ++ name) idx ≡ mac_data (machine_id ++ x) name idx
unfolding mac_data
mac_data_shift machine_id name x idx = elim (Bool-cases (ltb 0 idx)) [
  | inl indexed ↦ rw indexed (
      ap (λ t. machine_id ++ t) (append_assoc x name (le_bytes 8 idx))
      ∙ sym (append_assoc machine_id x (name ++ le_bytes 8 idx)))
  | inr plain ↦ rw plain (sym (append_assoc machine_id x name))
]

-- Bytes may move from the front of the community's name to the end of the machine id: the two pairs
-- have the same address.
ext_generate_mac_shift :
    (machine_id name x : Text)
    → ext_generate_mac (x ++ name) machine_id ≡ ext_generate_mac name (machine_id ++ x)
unfolding ext_generate_mac ext_generate_mac_with
ext_generate_mac_shift machine_id name x =
    ap (λ d. ok (mark (take 6 (le_bytes 8 (not_sip_hash24 d hash_key)))))
      (mac_data_shift machine_id name x 12345)
