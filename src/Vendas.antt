-- ===== src/Vendas.antt =====
-- frontend/features/vendas: the data of the point of sale (types/index.ts). Prices are in
-- thousandths of a real; names and descriptions are texts that the catalogue search takes apart.
pub mod NovoProduto
pub mod Carrinho
pub mod Checkout
pub mod Catalogo
pub mod Registro
use gestao_restaurante.Base.{ℕ, String, Bool, Option, List}
use gestao_restaurante.Base.Text.{Texto}

pub data CategoriaProduto : Type 0 where
  todos hamburgueres porcoes bebidas sobremesas : CategoriaProduto

pub data FormaPagamento : Type 0 where
  dinheiro pix debito credito : FormaPagamento

pub record Produto : Type 0 where
  pub id : String
  pub nome : Texto
  pub descricao : Option Texto
  pub preco : ℕ
  pub categoria : CategoriaProduto
  pub imagem_url : Option String
  pub estoque_restante : Option ℕ
  pub ativo : Bool

pub record ItemComanda : Type 0 where
  pub produto : Produto
  pub quantidade : ℕ
  pub subtotal : ℕ

pub record ItemVendaRequestDto : Type 0 where
  pub produto_id : String
  pub quantidade : ℕ

pub record RegistrarVendaRequestDto : Type 0 where
  pub forma_pagamento : FormaPagamento
  pub itens : List ItemVendaRequestDto
