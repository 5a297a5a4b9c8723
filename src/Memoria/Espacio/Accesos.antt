-- ===== src/Memoria/Espacio/Accesos.antt =====
-- One access to the user space.
use tp_2024_1c_pccsc.Common.{
  ℕ, ◌+◌, ◌≤◌, some, List, ◌++◌, ◌≡◌, refl, arith, length, take, drop, ◌>>=◌,
}
use tp_2024_1c_pccsc.Common.Bitarray.{Bitarray}
use tp_2024_1c_pccsc.Common.Bytes.{copiar_a-fits, copiar_de-fits, length-copiado}
use tp_2024_1c_pccsc.Memoria.{Memoria}
use tp_2024_1c_pccsc.Memoria.Espacio.{leer_memoria, escribir_memoria}

module _ ⦃bits : Bitarray⦄ where
  pub escribir_memoria_lem :
      (d : ℕ) (w : List ℕ) (m : Memoria)
      → d + length w ≤ length m.memoria
      → escribir_memoria d w m
        ≡ some (record m { memoria = take d m.memoria ++ (w ++ drop (d + length w) m.memoria) })
  unfolding escribir_memoria leer_memoria
  escribir_memoria_lem d w m h =
      let s = take d m.memoria ++ (w ++ drop (d + length w) m.memoria) in
      let l = length-copiado m.memoria d w h in
      rw (copiar_a-fits m.memoria d w h, ◌>>=◌)
        (rw (copiar_de-fits s d (length w) (omega arith), ◌>>=◌) refl)
