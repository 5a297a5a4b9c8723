-- ===== src/Cpu/Mmu/Cantidad.antt =====
-- How many requests `mmu` makes: the number that it writes into the message.
use tp_2024_1c_pccsc.Common.{
  ℕ, zero, suc, ◌+◌, ◌-◌, ◌*◌, ◌/◌, ◌%◌, ◌^◌, Option, some, List, [], ◌∷◌, ◌≡◌, inl, inr, sym, ◌∙◌,
  ap, length, ◌==◌, >>=-eq-some, Bool-cases, ==→≡,
}
use tp_2024_1c_pccsc.Cpu.Tlb.{Tlb, obtener_marco}
use tp_2024_1c_pccsc.Cpu.Mmu.{
  Peticion, bytes_a_enviar, fisica, mmu_bucle, cantidad_peticiones, mmu_peticiones,
}

module _ (tam : ℕ) (memoria : ℕ → ℕ → Option ℕ) (pid : ℕ) where
  length-mmu_bucle :
      (cantidad v i q d pend env : ℕ) (t t' : Tlb) (ps : List Peticion)
      → mmu_bucle tam memoria pid cantidad v i q d pend env t ≡ some (ps, t')
      → length ps ≡ v
  unfolding mmu_bucle
  length-mmu_bucle cantidad zero i q d pend env t t' ps e =
      let z : [] ≡ ps = cc in ap length (sym z)
  length-mmu_bucle cantidad (suc v) i q d pend env t t' ps e =
      let n = bytes_a_enviar tam cantidad i d pend in
      let (r, er, e1) = >>=-eq-some (obtener_marco memoria pid q t) _ e in
      let (s, es, e2) =
        >>=-eq-some
          (mmu_bucle tam memoria pid cantidad v (suc i) (suc q) 0 ((pend + 2 ^ 32 - n) % 2 ^ 32)
            (env + n) r.1)
          _ e1 in
      let ih =
        length-mmu_bucle cantidad v (suc i) (suc q) 0 ((pend + 2 ^ 32 - n) % 2 ^ 32) (env + n) r.1
          s.1 s.0 es in
      let z : record { direccion_fisica = fisica tam r.0 d; desde = env; bytes = n } ∷ s.0 ≡ ps =
        cc in
      ap length (sym z) ∙ ap suc ih

  -- The requests are as many as `cantidad_peticiones` says.
  pub length-mmu_peticiones :
      (a bytes : ℕ) (t t' : Tlb) (ps : List Peticion)
      → mmu_peticiones tam memoria pid a bytes t ≡ some (ps, t')
      → length ps ≡ cantidad_peticiones tam a bytes
  unfolding mmu_peticiones
  length-mmu_peticiones a bytes t t' ps e =
      let k = cantidad_peticiones tam a bytes in
      let q = a / tam in
      let d = a - q * tam in
      elim (Bool-cases (k == 1)) [
        | inl y ↦
            let (r, er, e1) = >>=-eq-some (obtener_marco memoria pid q t) _ (rw y at e) in
            let z : record { direccion_fisica = fisica tam r.0 d; desde = 0; bytes = bytes } ∷ []
                ≡ ps =
              cc in
            ap length (sym z) ∙ sym (==→≡ k 1 y)
        | inr n ↦ length-mmu_bucle k k 0 q d bytes 0 t t' ps (rw n at e)
      ]
