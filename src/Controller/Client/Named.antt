-- ===== src/Controller/Client/Named.antt =====
-- The client over objects in memory with a test of the pods' names: no pod has a name that fails it,
-- and a write of such a pod fails.
use resourceconsist.Base.{
  String, ◌≡◌, Bool, true, some, if◌then◌else◌, arith, Bool-cases, inl, inr, ap,
}
use mathlib.Core.Path.{◌∙◌}
use resourceconsist.Controller.Client.{Client, found, failed, IsPodStore, IsPodPatch}
use resourceconsist.Controller.Client.Memory.{
  Memory, memory, not_found, memory-IsPodStore, memory-IsPodPatch,
}

module _ (allowed : String → Bool) where
  abbrev pub named_memory : Client
  named_memory = record memory {
    World = Memory;
    get_pod = λ c ns n w. if allowed n then memory.get_pod c ns n w else failed not_found;
    update_pod = λ c p w. if allowed p.name then memory.update_pod c p w else (some not_found, w);
    patch_pod = λ c p base w.
        if allowed base.name then memory.patch_pod c p base w else (some not_found, w);
    err_read = memory.err_read;
    get_employer = memory.get_employer;
    update_employer = memory.update_employer;
    patch_employer = memory.patch_employer;
  }

  pub named_memory-IsPodStore : IsPodStore named_memory
  named_memory-IsPodStore = record {
    get-named = λ c ns n w p h. ground (arith, memory-IsPodStore.get-named c ns n w p, h);
    get-update_same = λ c ns n p fs w h. elim (Bool-cases (allowed n)) [
      | inl fits ↦
          let stored : memory.get_pod c ns n w ≡ found p = rw fits at h in
          let p_fits : allowed p.name ≡ true =
            ap allowed (memory-IsPodStore.get-named c ns n w p stored).1 ∙ fits in
          rw (fits, p_fits) (λ fine. memory-IsPodStore.get-update_same c ns n p fs w stored fine)
      | inr bad ↦ cc (rw bad at h)
    ];
    get-update_other = λ c d p ns n w h. elim (Bool-cases (allowed p.name)) [
      | inl fits ↦ elim (Bool-cases (allowed n)) [
        | inl n_fits ↦ rw (fits, n_fits) (memory-IsPodStore.get-update_other c d p ns n w h)
        | inr n_bad ↦ rw n_bad
      ]
      | inr bad ↦ rw bad
    ];
    get-update_failed = λ c d p ns n w e h. elim (Bool-cases (allowed p.name)) [
      | inl fits ↦ ground (arith, fits, h)
      | inr bad ↦ rw bad
    ];
  }

  pub named_memory-IsPodPatch : IsPodPatch named_memory
  named_memory-IsPodPatch = record {
    get-patch_same = λ c ns n p annotations w h. elim (Bool-cases (allowed n)) [
      | inl fits ↦
          let stored : memory.get_pod c ns n w ≡ found p = rw fits at h in
          let p_fits : allowed p.name ≡ true =
            ap allowed (memory-IsPodStore.get-named c ns n w p stored).1 ∙ fits in
          rw (fits, p_fits)
            (λ fine. memory-IsPodPatch.get-patch_same c ns n p annotations w stored fine)
      | inr bad ↦ cc (rw bad at h)
    ];
    get-patch_other = λ c d p base ns n w h. elim (Bool-cases (allowed base.name)) [
      | inl fits ↦ elim (Bool-cases (allowed n)) [
        | inl n_fits ↦ rw (fits, n_fits) (memory-IsPodPatch.get-patch_other c d p base ns n w h)
        | inr n_bad ↦ rw n_bad
      ]
      | inr bad ↦ rw bad
    ];
    get-patch_failed = λ c d p base ns n w e h. elim (Bool-cases (allowed base.name)) [
      | inl fits ↦ ground (arith, fits, h)
      | inr bad ↦ rw bad
    ];
    get-patch_employer = λ c d e base ns n w. elim (Bool-cases (allowed n)) [
      | inl fits ↦ rw fits (memory-IsPodPatch.get-patch_employer c d e base ns n w)
      | inr bad ↦ rw bad
    ];
  }
