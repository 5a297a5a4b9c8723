-- ===== src/Sistema/Acceso.antt =====
-- An access to logical addresses of a process, translated: the requests that `mmu` makes for it.
use native.Mathlib.Nat.{mul-le-mul_right, div-mul-le_self, mod-eq-sub-div-mul}
use tp_2024_1c_pccsc.Common.{
  ℕ, suc, ◌+◌, ◌-◌, ◌*◌, ◌/◌, ◌%◌, ◌^◌, ◌≤◌, ◌<◌, some, List, ◌≡◌, sym, ◌∙◌, ap, subst, arith,
  length, map, count, inl, inr, ltb, Bool-cases, ltb→lt, ltb→ge,
}
use tp_2024_1c_pccsc.Common.Bitarray.{Bitarray}
use tp_2024_1c_pccsc.Common.Celdas.{rango, length-rango, length-map}
use tp_2024_1c_pccsc.Cpu.Tlb.{Tlb}
use tp_2024_1c_pccsc.Cpu.Tlb.Coherencia.{Coherente}
use tp_2024_1c_pccsc.Cpu.Mmu.{Peticion, cantidad_peticiones, mmu_peticiones}
use tp_2024_1c_pccsc.Cpu.Mmu.Cantidad.{length-mmu_peticiones}
use tp_2024_1c_pccsc.Cpu.Mmu.Traduccion.{expandir, Contiguas, Paginas, mmu_peticiones_lem}
use tp_2024_1c_pccsc.Memoria.{Pcb, Memoria, buscar_pcb}
use tp_2024_1c_pccsc.Memoria.Invariante.{Inv}
use tp_2024_1c_pccsc.Memoria.Exclusividad.{marco_de, obtener_marco_lem, marco_acotado}
use tp_2024_1c_pccsc.Sistema.{tlb_miss}
use tp_2024_1c_pccsc.Sistema.Aplicar.{SinRepetir, EnMemoria}
use tp_2024_1c_pccsc.Sistema.Direcciones.{fisica_de, tamanio_de, fisica_de_lt, fisica_de_unica}
use tp_2024_1c_pccsc.Sistema.Rangos.{imagen-SinRepetir, imagen_lt, EnMemoria_lem}

-- The last page that a range of addresses touches.
cantidad_acotada :
    (tam a bytes n : ℕ)
    → 0 < tam
    → a + bytes < 2 ^ 32
    → a + bytes ≤ n * tam
    → a / tam + cantidad_peticiones tam a bytes ≤ n
cantidad_acotada tam a bytes n ht hw hn =
    let q = a / tam in
    let k = cantidad_peticiones tam a bytes in
    let d = a - q * tam in
    let l = div-mul-le_self a tam in
    let total : (d + bytes) % 2 ^ 32 ≡ d + bytes = omega arith in
    let kd : k ≡ (d + bytes + tam - 1) / tam = ap (λ x. (x + tam - 1) / tam) total in
    let lo : k * tam < d + bytes + tam =
      omega (arith, div-mul-le_self (d + bytes + tam - 1) tam, ap (λ x. x * tam) kd) in
    elim (Bool-cases (ltb n (q + k))) [
      | inl y ↦
          let s : suc n * tam ≤ (q + k) * tam = mul-le-mul_right tam (ltb→lt n (q + k) y) in
          absurd (omega arith)
      | inr z ↦ ltb→ge n (q + k) z
    ]

module _ ⦃bits : Bitarray⦄ (m : Memoria) (v : Inv m) (pid : ℕ) (p : Pcb)
    (e : buscar_pcb pid m.lista_pcb_tablas_paginas ≡ some p) where
  -- An access inside the process whose message fits a buffer.
  pub record Acceso (a bytes : ℕ) : Type 0 where
    pub no_vacio : 0 < bytes
    pub en_proceso : a + bytes ≤ tamanio_de m p
    pub pid_acotado : pid < 2 ^ 32
    pub logica_acotada : a + bytes < 2 ^ 32
    pub memoria_acotada : length m.memoria < 2 ^ 32
    pub mensaje_acotado : 8 + 8 * cantidad_peticiones m.config.tam_pagina a bytes + bytes < 2 ^ 32

  -- The requests reach the images of the addresses, in order, each byte of memory at most once.
  pub record Peticiones (a bytes : ℕ) (t : Tlb) (ps : List Peticion) (t' : Tlb) : Type 0 where
    pub hechas : mmu_peticiones m.config.tam_pagina (tlb_miss m) pid a bytes t ≡ some (ps, t')
    pub cuantas : length ps ≡ cantidad_peticiones m.config.tam_pagina a bytes
    pub imagenes : expandir ps ≡ map (fisica_de m p) (rango a bytes)
    pub largo : length (expandir ps) ≡ bytes
    pub contiguas : Contiguas 0 ps
    pub unicas : SinRepetir (expandir ps)
    pub en_memoria : EnMemoria (length m.memoria) ps
    pub sigue_coherente : Coherente (tlb_miss m) t'.tlb_list

  pub Acceso-Peticiones :
      (a bytes : ℕ) (t : Tlb)
      → Acceso a bytes
      → Coherente (tlb_miss m) t.tlb_list
      → (ps : List Peticion) × (t' : Tlb) × Peticiones a bytes t ps t'
  Acceso-Peticiones a bytes t h c =
      let tam = m.config.tam_pagina in
      let n = length p.tabla_paginas in
      let f = fisica_de m p in
      let pags : Paginas tam (tlb_miss m) pid (marco_de p) n = record {
        pagina_pos = v.pagina_pos;
        conocida = obtener_marco_lem m v pid p e;
        acotada = λ q hq. omega (arith, marco_acotado m v pid p e q hq, h.memoria_acotada);
      } in
      let da = mod-eq-sub-div-mul a tam in
      let cap : a / tam + cantidad_peticiones tam a bytes ≤ n =
        cantidad_acotada tam a bytes n v.pagina_pos h.logica_acotada h.en_proceso in
      let (ps, t', run, ex, cont, coh, posi) =
        mmu_peticiones_lem tam (tlb_miss m) pid (marco_de p) n a bytes t pags
          (omega (arith, h.logica_acotada)) cap c in
      let en : (x : ℕ) → a ≤ x → x < a + bytes → x < tamanio_de m p =
        λ x b d. omega (arith, h.en_proceso) in
      (
        ps,
        t',
        record {
          hechas = run;
          cuantas = length-mmu_peticiones tam (tlb_miss m) pid a bytes t t' ps run;
          imagenes = ex;
          largo = ap length ex ∙ length-map f (rango a bytes) ∙ length-rango a bytes;
          contiguas = cont;
          unicas = subst SinRepetir (sym ex) (
              imagen-SinRepetir f a bytes
                (λ x y b c b' c'. fisica_de_unica m v pid p e x y (en x b c) (en y b' c')));
          en_memoria = EnMemoria_lem (length m.memoria) ps (posi h.no_vacio) (λ x c.
              imagen_lt f x a bytes (length m.memoria)
                (λ y b c'. fisica_de_lt m v pid p e y (en y b c'))
                (subst (λ l. 0 < count x l) ex c));
          sigue_coherente = coh;
        },
      )
