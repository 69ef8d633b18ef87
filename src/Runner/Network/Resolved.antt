-- ===== src/Runner/Network/Resolved.antt =====
-- Which addresses Resolve gives.
use netpilot.Base.{ℕ, ◌≡◌, ◌∙◌, inl, inr, some, List, [], arith, Bool-cases, Option-cases, ◌==◌}
use netpilot.Base.Text.{Bytes, str_eq}
use netpilot.Std.Number.{stoull}
use netpilot.Std.OrderedSet.{str_lt, contains}
use netpilot.Std.OrderedSet.Laws.{IsIncreasing}
use netpilot.Std.Sort.{sort, unique}
use netpilot.Std.Sort.Laws.{
  sort-IsOrdered, str_lt_asymmetric, unique-IsIncreasing, contains-unique, contains-sort,
}
use netpilot.Runner.Network.{NetworkApi, a_texts, resolve_at, resolve}

module _ (n : NetworkApi) where
  open n use {World}

  -- The addresses are those of the A records that a query on the adapter's interface found, each
  -- of them once, in increasing order.
  pub record IsResolved (host adapter_luid : Bytes) (w : World) (addresses : List Bytes)
      : Type 0 where
    pub luid : ℕ
    pub read : stoull adapter_luid ≡ some luid
    pub index_found : (n.luid_to_index luid w).0 ≡ 0
    pub answered : (n.dns_query host (n.luid_to_index luid w).1 w).0 ≡ 0
    pub increasing : IsIncreasing addresses
    pub same :
        (d : Bytes)
        → contains d addresses
          ≡ contains d (a_texts n (n.dns_query host (n.luid_to_index luid w).1 w).1)

  -- If Resolve reports no error, its addresses are exactly those of the A records that were found on
  -- the interface of the adapter with the LUID, in strictly increasing order.
  pub resolve-IsResolved :
      (host adapter_luid : Bytes) (w : World)
      → (resolve n host adapter_luid w).1 ≡ []
      → IsResolved host adapter_luid w (resolve n host adapter_luid w).0
  unfolding resolve resolve_at
  resolve-IsResolved host adapter_luid w h = elim (Option-cases (stoull adapter_luid)) [
    | inl bad ↦ absurd (ground (arith, bad))
    | inr (luid, read) ↦
        let index = (n.luid_to_index luid w).1 in
        let (status, records) = n.dns_query host index w in
        let found = a_texts n records in
        elim (Bool-cases ((n.luid_to_index luid w).0 == 0)) [
          | inr gone ↦ absurd (ground (arith, read, gone))
          | inl there ↦ elim (Bool-cases (status == 0)) [
            | inr failed ↦ absurd (ground (arith, read, there, failed))
            | inl answered ↦
                let e : (resolve n host adapter_luid w).0 ≡ unique str_eq (sort str_lt found) =
                  ground (arith, read, there, answered) in
                rw e (record {
                  luid = luid;
                  read = read;
                  index_found = ground (arith, there);
                  answered = ground (arith, answered);
                  increasing =
                      unique-IsIncreasing (sort str_lt found)
                        (sort-IsOrdered str_lt str_lt_asymmetric found);
                  same = λ d. contains-unique d (sort str_lt found) ∙ contains-sort d found;
                })
          ]
        ]
  ]
